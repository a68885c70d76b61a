-- ===== src/Archive/Limit.antt =====
-- The limit on decompressed bytes.
use akuapkg.Common.{
  ℕ, ◌+◌, ◌≤◌, ◌≡◌, ◌↔◌, refl, ap, Option, some, none, [], ◌++◌, length, length-append, ltb, arith,
  Bool-cases, inl, inr,
}
use akuapkg.Common.Result.{ok, >>=-eq-ok}
use akuapkg.Archive.{Bytes}
use akuapkg.Archive.Gzip.{Chunks, end, broken_off, chunk, gunzip_from, gunzip}
use mathlib.Core.Option

-- all that a decompression delivers, if it ends well
unfoldable pub contents : Chunks → Option Bytes
contents end = some []
contents (broken_off cause) = none
contents (chunk bytes rest) = Option.map (λ later. bytes ++ later) (contents rest)

map-some :
    (more : Bytes) (o : Option Bytes) (bytes : Bytes)
    → Option.map (λ later. more ++ later) o ≡ some bytes
    → (later : Bytes) × (o ≡ some later) × (more ++ later ≡ bytes)
map-some more none bytes h = cc
map-some more (some later) bytes h = (later, refl, cc)

gunzip_from-ok :
    (limit total : ℕ) (chunks : Chunks) (bytes : Bytes)
    → total ≤ limit
    → (gunzip_from limit total chunks ≡ ok bytes)
      ↔ ((contents chunks ≡ some bytes) × (total + length bytes ≤ limit))
unfolding gunzip_from contents
gunzip_from-ok limit total end bytes k =
    (λ h. let e : [] ≡ bytes = cc in rw (← e) (refl, omega arith), λ h. cc)
gunzip_from-ok limit total (broken_off cause) bytes k = (λ h. absurd cc, λ h. absurd cc)
gunzip_from-ok limit total (chunk more rest) bytes k =
    elim (Bool-cases (ltb limit (total + length more))) [
      | inl e ↦ (
        λ h. absurd (ground (arith, e)),
        λ (c, l).
            let (later, found, same) = map-some more (contents rest) bytes c in
            absurd (ground (arith, ap length same, length-append {0} more later)),
      )
      | inr e ↦ rw e (
        λ h.
            let (later, found, same) =
              >>=-eq-ok (gunzip_from limit (total + length more) rest) _ h in
            let joined : more ++ later ≡ bytes = cc in
            let (c, l) =
              (gunzip_from-ok limit (total + length more) rest later (ground arith)).0 found in
            (rw c (ap some joined), omega (arith, ap length joined, length-append {0} more later)),
        λ (c, l).
            let (later, found, same) = map-some more (contents rest) bytes c in
            rw
              ((gunzip_from-ok limit (total + length more) rest later (ground arith)).1
                (found, omega (arith, ap length same, length-append {0} more later)))
              (ap ok same),
      )
    ]

-- For any limit, decompressing succeeds with `bytes` exactly when the stream ends well, these are
-- all that it delivers, and they are no longer than the limit.
pub gunzip-ok_iff :
    (inflate : Bytes → Chunks) (limit : ℕ) (source bytes : Bytes)
    → (gunzip inflate limit source ≡ ok bytes)
      ↔ ((contents (inflate source) ≡ some bytes) × (length bytes ≤ limit))
gunzip-ok_iff inflate limit source bytes =
    let (forth, back) = gunzip_from-ok limit 0 (inflate source) bytes (omega arith) in
    (λ h. ((forth h).0, omega (arith, (forth h).1)), λ (c, l). back (c, omega arith))
