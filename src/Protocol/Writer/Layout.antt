-- ===== src/Protocol/Writer/Layout.antt =====
-- What the pushes append, in plain bytes.
use forever.Prelude.{
  ℕ, ◌+◌, ◌<◌, ◌≡◌, refl, ◌++◌, append_assoc, length, length-append, arith, lt→ltb,
}
use forever.Bytes.{Bytes, le_bytes}
use forever.Bytes.Laws.{length-le_bytes}
use forever.Protocol.Error.{ok}
use forever.Protocol.Writer.{push_u32, push_u64, push_string, checked_count, u32_range}

-- A string on the wire: its length, then its bytes.
unfoldable pub string_bytes : Bytes → Bytes
string_bytes value = le_bytes 4 (length value) ++ value

pub length-string_bytes : (value : Bytes) → length (string_bytes value) ≡ 4 + length value
unfolding string_bytes
length-string_bytes value =
    omega (arith, length-append (le_bytes 4 (length value)) value, length-le_bytes 4 (length value))

pub push_u32_lem : (buffer : Bytes) (value : ℕ) → push_u32 buffer value ≡ buffer ++ le_bytes 4 value
unfolding push_u32
push_u32_lem buffer value = refl

pub push_u64_lem : (buffer : Bytes) (value : ℕ) → push_u64 buffer value ≡ buffer ++ le_bytes 8 value
unfolding push_u64
push_u64_lem buffer value = refl

pub push_string_lem :
    (buffer value : Bytes)
    → length value < u32_range
    → push_string buffer value ≡ ok (buffer ++ string_bytes value)
unfolding push_string string_bytes
push_string_lem buffer value h =
    rw (lt→ltb (length value) u32_range h, append_assoc buffer (le_bytes 4 (length value)) value)

pub checked_count_lem : (count : ℕ) → count < u32_range → checked_count count ≡ ok count
unfolding checked_count
checked_count_lem count h = rw (lt→ltb count u32_range h)

pub length-bytes : (xs ys : Bytes) → length (xs ++ ys) ≡ length xs + length ys
length-bytes = length-append

-- For `omega`, the length of a payload that is given by its parts.
pub ruleset payload_sizes = (arith, length-bytes, length-le_bytes, length-string_bytes)
