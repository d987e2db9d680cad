-- ===== src/Protocol/Writer.antt =====
-- `push_u32`, `push_u64`, `push_string` and `checked_count` of protocol.rs. A `&mut Vec<u8>` is
-- passed in and returned.
pub mod Layout
use forever.Prelude.{ℕ, ◌^◌, ltb, if◌then◌else◌, ◌++◌, length}
use forever.Bytes.{Bytes, le_bytes}
use forever.Protocol.Error.{Result, ok, err, panicked, invalid_count}

-- `u32::try_from` succeeds below this.
abbrev pub u32_range : ℕ
u32_range = 2 ^ 32

abbrev pub u64_range : ℕ
u64_range = 2 ^ 64

unfoldable pub push_u32 : Bytes → ℕ → Bytes
push_u32 buffer value = buffer ++ le_bytes 4 value

unfoldable pub push_u64 : Bytes → ℕ → Bytes
push_u64 buffer value = buffer ++ le_bytes 8 value

-- The length is put into a u32 by `expect`.
unfoldable pub push_string : Bytes → Bytes → Result Bytes
unfolding push_u32
push_string buffer value =
    if ltb (length value) u32_range then ok (push_u32 buffer (length value) ++ value) else panicked

unfoldable pub checked_count : ℕ → Result ℕ
checked_count count =
    if ltb count u32_range then ok count else err (invalid_count "encoded values" count)
