-- ===== src/Archive/Gzip.antt =====
-- host/src/archive.ts: gzip around the platform's deflate and checksum, and its decompression, a
-- stream of chunks, up to a limit.
use akuapkg.Common.{ℕ, ◌+◌, ◌/◌, ◌%◌, Text, [], ◌∷◌, ◌++◌, length, ltb, if◌then◌else◌}
use akuapkg.Common.Result.{Result, ok, err, ◌>>=◌}
use akuapkg.Archive.{Bytes, ArchiveProblem, decompressing, too_large}

-- MAX_DECOMPRESSED_BYTES
abbrev pub max_decompressed_bytes : ℕ
max_decompressed_bytes = 2147483648

-- what a decompression delivers: chunks, then its end or a failure
pub data Chunks : Type 0 where
  end : Chunks
  broken_off : Text → Chunks
  chunk : Bytes → Chunks → Chunks

-- the two rounds of `gunzip` for each chunk, the total before it and the test of the limit
unfoldable pub gunzip_from : ℕ → ℕ → Chunks → Result ArchiveProblem Bytes
gunzip_from limit total end = ok []
gunzip_from limit total (broken_off cause) = err (decompressing cause)
gunzip_from limit total (chunk bytes rest) =
    if ltb limit (total + length bytes)
    then err (too_large limit)
    else do later ← gunzip_from limit (total + length bytes) rest; ok (bytes ++ later)

-- `inflate` is the stream that `DecompressionStream("gzip")` makes of the bytes
abbrev pub gunzip : (Bytes → Chunks) → ℕ → Bytes → Result ArchiveProblem Bytes
gunzip inflate limit bytes = gunzip_from limit 0 (inflate bytes)

-- `setUint32`, little end first
abbrev pub uint32_le : ℕ → Bytes
uint32_le n = n % 256 ∷ n / 256 % 256 ∷ n / 65536 % 256 ∷ n / 16777216 % 256 ∷ []

-- `deflate` and `crc32` are the platform's
abbrev pub gzip : (Bytes → Bytes) → (Bytes → ℕ) → Bytes → Bytes
gzip deflate crc32 content =
    0x1f
    ∷ 0x8b
    ∷ 8
    ∷ 0
    ∷ 0
    ∷ 0
    ∷ 0
    ∷ 0
    ∷ 0
    ∷ 0xff
    ∷ (deflate content ++ (uint32_le (crc32 content) ++ uint32_le (length content)))
