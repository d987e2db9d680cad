-- ===== src/Bytes.antt =====
-- Bytes as numbers below 256, and the little-endian words of Rust's `to_le_bytes` and
-- `from_le_bytes` (std), on which src-tauri/src/connection/protocol.rs stands.
pub mod Laws
use forever.Prelude.{
  ℕ, zero, suc, ◌+◌, ◌-◌, ◌*◌, ◌/◌, ◌%◌, ◌^◌, ◌<◌, List, [], ◌∷◌, All, ltb, if◌then◌else◌, Bool,
  true, false, ◌==◌, ◌&&◌,
}
use forever.Prelude.Int.{ℤ, pos, negsuc}

abbrev pub Bytes : Type 0
Bytes = List ℕ

abbrev pub IsBytes : Bytes → Type 0
IsBytes bs = All (λ b. b < 256) bs

-- `value.to_le_bytes()` of a word of `k` bytes.
unfoldable pub le_bytes : ℕ → ℕ → Bytes
le_bytes zero v = []
le_bytes (suc k) v = (v % 256) ∷ le_bytes k (v / 256)

-- `uN::from_le_bytes(bytes)`.
unfoldable pub from_le : Bytes → ℕ
from_le [] = 0
from_le (b ∷ bs) = b + 256 * from_le bs

-- `i32::from_le_bytes(bytes)`: the same word read in two's complement.
unfoldable pub i32_of : ℕ → ℤ
i32_of v = if ltb v (2 ^ 31) then pos v else negsuc (2 ^ 32 - v - 1)

-- `==` of two strings, which are their bytes.
unfoldable pub bytes_eq : Bytes → Bytes → Bool
bytes_eq [] [] = true
bytes_eq (x ∷ xs) (y ∷ ys) = x == y && bytes_eq xs ys
bytes_eq _ _ = false
