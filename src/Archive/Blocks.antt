-- ===== src/Archive/Blocks.antt =====
-- Regions of a header's bytes.
use akuapkg.Common.{
  ℕ, zero, suc, ◌+◌, ◌-◌, ◌≤◌, ◌<◌, ◌≡◌, ◌≢◌, refl, ap, ◌∙◌, ◌⊎◌, includes, false, [], ◌∷◌, ◌++◌,
  all, length, take, drop, replicate, ◌==◌, arith,
}
use akuapkg.Archive.{Bytes, before_zero, slice}
use akuapkg.Archive.Untar.{nth}
use akuapkg.Archive.Write.{Block, block_bytes, put}

pub length-block_bytes : (f : Block) (i n : ℕ) → length (block_bytes f i n) ≡ n
unfolding block_bytes
length-block_bytes f i zero = refl
length-block_bytes f i (suc n) = ap suc (length-block_bytes f (suc i) n)

pub take-block_bytes :
    (f : Block) (i n m : ℕ) → n ≤ m → take n (block_bytes f i m) ≡ block_bytes f i n
unfolding block_bytes
take-block_bytes f i zero m h = refl
take-block_bytes f i (suc n) zero h = absurd (omega arith)
take-block_bytes f i (suc n) (suc m) h =
    ap (◌∷◌ (f i)) (take-block_bytes f (suc i) n m (omega arith))

block_bytes_same : (f : Block) {i j n m : ℕ} → i ≡ j → n ≡ m → block_bytes f i n ≡ block_bytes f j m
block_bytes_same f p q = rw (p, q) refl

pub drop-block_bytes :
    (f : Block) (i k m : ℕ) → k ≤ m → drop k (block_bytes f i m) ≡ block_bytes f (i + k) (m - k)
unfolding block_bytes
drop-block_bytes f i zero m h = block_bytes_same f (omega arith) (omega arith)
drop-block_bytes f i (suc k) zero h = absurd (omega arith)
drop-block_bytes f i (suc k) (suc m) h =
    drop-block_bytes f (suc i) k m (omega arith) ∙ block_bytes_same f (omega arith) (omega arith)

pub slice-block_bytes :
    (f : Block) (k n m : ℕ) → k + n ≤ m → slice (block_bytes f 0 m) k n ≡ block_bytes f k n
slice-block_bytes f k n m h =
    ap (take n) (drop-block_bytes f 0 k m (omega arith) ∙ block_bytes_same f (omega arith) refl)
    ∙ take-block_bytes f k n (m - k) (omega arith)

pub nth-block_bytes : (f : Block) (i k m : ℕ) → k < m → nth k (block_bytes f i m) ≡ f (i + k)
unfolding nth block_bytes
nth-block_bytes f i k zero h = absurd (omega arith)
nth-block_bytes f i zero (suc m) h = ap f (omega arith)
nth-block_bytes f i (suc k) (suc m) h =
    nth-block_bytes f (suc i) k m (omega arith) ∙ ap f (omega arith)

pub block_bytes_eq :
    (f g : Block) (i n : ℕ)
    → ((k : ℕ) → i ≤ k → k < i + n → f k ≡ g k)
    → block_bytes f i n ≡ block_bytes g i n
unfolding block_bytes
block_bytes_eq f g i zero h = refl
block_bytes_eq f g i (suc n) h =
    rw (h i (omega arith) (omega arith))
      (ap (◌∷◌ (g i)) (block_bytes_eq f g (suc i) n (λ k a b. h k (omega arith) (omega arith))))

-- a text from position `o` on, and zeros behind it
pub block_bytes-nth :
    (bs : Bytes) (o n : ℕ) (f : Block)
    → length bs ≤ n
    → ((k : ℕ) → o ≤ k → k < o + n → f k ≡ nth (k - o) bs)
    → block_bytes f o n ≡ bs ++ replicate (n - length bs) 0
unfolding block_bytes nth
block_bytes-nth [] o zero f h k = refl
block_bytes-nth [] o (suc n) f h k = rw (k o (omega arith) (omega arith)) (
    ap (◌∷◌ 0)
      (block_bytes-nth [] (suc o) n f (omega arith) (λ j a b. k j (omega arith) (omega arith)))
    ∙ ap (λ j. replicate j 0) {x = suc (n - 0)} {y = suc n - 0} (omega arith))
block_bytes-nth (b ∷ bs) o zero f h k = absurd (omega arith)
block_bytes-nth (b ∷ bs) o (suc n) f h k =
    let here : f o ≡ b =
      k o (omega arith) (omega arith)
      ∙ ap (λ j. nth j (b ∷ bs)) {x = o - o} {y = 0} (omega arith) in
    rw here (
      ap (◌∷◌ b) (
        block_bytes-nth bs (suc o) n f (omega arith) (λ j a c.
          k j (omega arith) (omega arith)
          ∙ ap (λ i. nth i (b ∷ bs)) {x = j - o} {y = suc (j - suc o)} (omega arith)))
      ∙ ap (λ j. b ∷ (bs ++ replicate j 0)) {x = n - length bs} {y = suc n - suc (length bs)}
          (omega arith))

pub before_zero-append :
    (bs : Bytes) (n : ℕ) → includes bs 0 ≡ false → before_zero (bs ++ replicate n 0) ≡ bs
unfolding before_zero includes
before_zero-append [] zero h = refl
before_zero-append [] (suc n) h = refl
before_zero-append (b ∷ bs) n h = ground (arith, before_zero-append bs n)

-- a byte that is not zero is seen by the test for an empty header
pub all_zero-nth : (i : ℕ) (bs : Bytes) → nth i bs ≢ 0 → all (λ b. b == 0) bs ≡ false
unfolding nth
all_zero-nth i [] h = absurd (h refl)
all_zero-nth zero (b ∷ bs) h = ground arith
all_zero-nth (suc i) (b ∷ bs) h = ground (arith, all_zero-nth i bs h)

pub put_outside :
    (bs : Bytes) (o n : ℕ) (f : Block) (k : ℕ) → (k < o) ⊎ (o + n ≤ k) → put bs o n f k ≡ f k
put_outside bs o n f k h = ground arith

pub nth_past : (i : ℕ) (bs : Bytes) → length bs ≤ i → nth i bs ≡ 0
unfolding nth
nth_past i [] h = refl
nth_past zero (b ∷ bs) h = absurd (omega arith)
nth_past (suc i) (b ∷ bs) h = nth_past i bs (omega arith)

-- inside a region that was zero before
pub put_inside :
    (bs : Bytes) (o n : ℕ) (f : Block) (k : ℕ)
    → o ≤ k
    → k < o + n
    → f k ≡ 0
    → put bs o n f k ≡ nth (k - o) bs
put_inside bs o n f k a b z = ground (arith, nth_past (k - o) bs)
