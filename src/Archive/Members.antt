-- ===== src/Archive/Members.antt =====
-- One member, as `tar` writes it, is found by the reader.
use mathlib.Core.List.{append_assoc}
use akuapkg.Common.{
  ℕ, ◌+◌, ◌-◌, ◌<◌, ◌≡◌, refl, ap, sym, ◌∙◌, Text, false, some, List, ◌++◌, all, length,
  length-append, take, take-append, drop, drop-append, replicate, ◌==◌, ltb, ltb_of_le, arith,
}
use akuapkg.Archive.{Bytes, Utf8, Utf8Laws, octal}
use akuapkg.Archive.Untar.{rounded, next_member, member_at}
use akuapkg.Archive.Write.{tar_header, tar_block, padded}
use akuapkg.Archive.Numbers.{length-replicate}
use akuapkg.Archive.Blocks.{length-block_bytes, all_zero-nth}
use akuapkg.Archive.Headers.{octal_size, letter_u}

take-front {ℓ} : {A : Type ℓ} (n : ℕ) (xs ys : List A) → length xs ≡ n → take n (xs ++ ys) ≡ xs
take-front n xs ys h = rw (← h) (take-append xs ys)

drop-front {ℓ} : {A : Type ℓ} (n : ℕ) (xs ys : List A) → length xs ≡ n → drop n (xs ++ ys) ≡ ys
drop-front n xs ys h = rw (← h) (drop-append xs ys)

module _ (utf8 : Utf8) (laws : Utf8Laws utf8) (name : Bytes) (mode : ℕ) (type : Text)
    (content : Bytes) where
  abbrev header : Bytes
  header = tar_header utf8 name (length content) mode type

  length-header : length header ≡ 512
  length-header = length-block_bytes (tar_block utf8 name (length content) mode type) 0 512

  not_empty : all (λ b. b == 0) header ≡ false
  not_empty =
      all_zero-nth 257 header
        (λ h. absurd (omega (arith, h, letter_u utf8 name (length content) mode type laws)))

  length-padded : length (padded content) ≡ rounded (length content)
  length-padded = omega (
    arith,
    length-append {0} content (replicate (rounded (length content) - length content) 0),
    length-replicate (rounded (length content) - length content) 0,
  )

  -- The reader finds the header and the content that were written, and goes on behind the padding.
  pub next_member-written :
      (rest : Bytes)
      → length content < 8589934592
      → next_member utf8 (header ++ (padded content ++ rest)) ≡ member_at header content rest
  unfolding next_member
  next_member-written rest h =
      let all_bytes = header ++ (padded content ++ rest) in
      let front : take 512 all_bytes ≡ header = take-front 512 header _ length-header in
      let behind : drop 512 all_bytes ≡ padded content ++ rest =
        drop-front 512 header _ length-header in
      let long : length all_bytes ≡ 512 + (rounded (length content) + length rest) = omega (
        arith,
        length-append {0} header (padded content ++ rest),
        length-append {0} (padded content) rest,
        length-header,
        length-padded,
      ) in
      let body : take (length content) (drop 512 all_bytes) ≡ content =
        ap (take (length content)) (behind ∙ append_assoc content _ rest) ∙ take-append content _ in
      let after : drop (512 + rounded (length content)) all_bytes ≡ rest =
        ap (drop (512 + rounded (length content))) (sym (append_assoc header (padded content) rest))
        ∙ drop-front _ (header ++ padded content) rest (
            omega
              (arith, length-append {0} header (padded content), length-header, length-padded)) in
      let size : octal utf8 header 124 12 ≡ some (length content) =
        octal_size utf8 name (length content) mode type laws h in
      let room : ltb (length all_bytes) 512 ≡ false = ltb_of_le _ 512 (omega arith) in
      let fits : ltb (length all_bytes) (512 + length content) ≡ false =
        ltb_of_le _ (512 + length content) (omega arith) in
      rw room (rw front (rw not_empty (rw size (rw fits (rw body (rw after (rw front refl)))))))
