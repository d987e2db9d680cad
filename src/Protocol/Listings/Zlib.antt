-- ===== src/Protocol/Listings/Zlib.antt =====
-- The crate flate2, which protocol.rs calls: a parameter.
use forever.Prelude.{ℕ, ◌+◌, ◌≤◌, ◌≡◌, Option, none, some, ltb, if◌then◌else◌, length, take}
use forever.Bytes.{Bytes}
use forever.Protocol.Error.{Result, ok, err, io, decompressed_payload_too_large}

-- `deflate` is `ZlibEncoder` with `write_all` and `finish`; `inflate n` is `ZlibDecoder` with
-- `take(n)` and `read_to_end`. `none` is an I/O error.
pub record Zlib : Type 0 where
  pub deflate : Bytes → Option Bytes
  pub inflate : ℕ → Bytes → Option Bytes

-- What the crate documents: decoding gives back what was encoded, as far as it is asked for, and
-- `take(n)` ends after `n` bytes.
pub record IsLossless (z : Zlib) : Type 0 where
  pub inflate-deflate :
      (n : ℕ) (plain packed : Bytes)
      → z.deflate plain ≡ some packed
      → z.inflate n packed ≡ some (take n plain)
  pub length-inflate :
      (n : ℕ) (packed plain : Bytes) → z.inflate n packed ≡ some plain → length plain ≤ n

unfoldable pub or_io : Option Bytes → Result Bytes
or_io (some bytes) = ok bytes
or_io none = err io

check_size : ℕ → Bytes → Result Bytes
check_size maximum payload =
    if ltb maximum (length payload) then err decompressed_payload_too_large else ok payload

-- Decompression of a payload with a limit on what comes out.
unfoldable pub decompress : Zlib → ℕ → Bytes → Result Bytes
unfolding check_size
decompress z maximum packed = elim (z.inflate (maximum + 1) packed) [
  | some payload ↦ check_size maximum payload
  | none ↦ err io
]
