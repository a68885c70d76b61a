-- ===== src/Cosign/Der.antt =====
-- host/src/cosign.ts: `derToRaw` and `rawToDer`. Bytes are numbers.
use akuapkg.Common.{
  ℕ, ◌+◌, ◌-◌, ◌/◌, ◌%◌, Option, none, some, List, [], ◌∷◌, ◌++◌, length, take, drop, replicate,
  ◌==◌, ltb, if◌then◌else◌,
}

-- `value[0] === 0 ? value.subarray(1) : value`
unfoldable pub without_sign : List ℕ → List ℕ
without_sign [] = []
without_sign (b ∷ bytes) = if b == 0 then bytes else b ∷ bytes

-- left-padded to 32 bytes
unfoldable pub padded_integer : List ℕ → Option (List ℕ)
padded_integer trimmed =
    if ltb 32 (length trimmed) then none else some (replicate (32 - length trimmed) 0 ++ trimmed)

-- an integer at the start of what is left, and the rest behind it
unfoldable pub read_integer : List ℕ → Option (List ℕ × List ℕ)
read_integer [] = none
read_integer (tag ∷ []) = if tag == 2 then some (replicate 32 0, []) else none
read_integer (tag ∷ size ∷ rest) =
    if tag == 2
    then elim (padded_integer (without_sign (take size rest))) [
      | none ↦ none
      | some out ↦ some (out, drop size rest)
    ]
    else none

unfoldable pub read_pair : List ℕ → Option (List ℕ)
read_pair rest = elim (read_integer rest) [
  | none ↦ none
  | some r ↦ elim (read_integer r.1) [ none ↦ none | some s ↦ some (r.0 ++ s.0) ]
]

unfoldable pub der_to_raw : List ℕ → Option (List ℕ)
der_to_raw [] = none
der_to_raw (tag ∷ rest) = if tag == 0x30 then read_pair (drop 1 rest) else none

-- the loop over leading zeros, which keeps the last byte
unfoldable pub without_zeros : List ℕ → List ℕ
without_zeros [] = []
without_zeros (b ∷ []) = b ∷ []
without_zeros (b ∷ c ∷ bytes) =
    let rest = without_zeros (c ∷ bytes) in if b == 0 then rest else b ∷ c ∷ bytes

-- a zero in front where the top bit is set
unfoldable pub with_sign : List ℕ → List ℕ
with_sign [] = []
with_sign (b ∷ bytes) = if b / 128 % 2 == 1 then 0 ∷ b ∷ bytes else b ∷ bytes

-- `new Uint8Array([0x02, value.length, ...value])`
abbrev pub der_integer : List ℕ → List ℕ
der_integer bytes =
    2 ∷ length (with_sign (without_zeros bytes)) % 256 ∷ with_sign (without_zeros bytes)

unfoldable pub raw_to_der : List ℕ → List ℕ
raw_to_der raw =
    let r = der_integer (take 32 raw) in
    let s = der_integer (drop 32 raw) in 0x30 ∷ (length r + length s) % 256 ∷ (r ++ s)
