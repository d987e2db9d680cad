-- ===== src/Bytes/Laws.antt =====
-- Words and their bytes are inverse to one another.
use forever.Prelude.{
  ℕ, zero, suc, ◌*◌, ◌/◌, ◌^◌, ◌<◌, ◌≡◌, refl, ap, [], ◌∷◌, length, arith, all, ltb, ltb→lt,
  and_parts, true,
}
use native.Mathlib.Nat.{pow-suc}
use forever.Bytes.{Bytes, IsBytes, le_bytes, from_le}

pub length-le_bytes : (k v : ℕ) → length (le_bytes k v) ≡ k
unfolding le_bytes
length-le_bytes zero v = refl
length-le_bytes (suc k) v = ap suc (length-le_bytes k (v / 256))

pub le_bytes-IsBytes : (k v : ℕ) → IsBytes (le_bytes k v)
unfolding le_bytes
le_bytes-IsBytes zero v = tt
le_bytes-IsBytes (suc k) v = (omega arith, le_bytes-IsBytes k (v / 256))

pub pow_256_suc : (k : ℕ) → 256 ^ suc k ≡ 256 * 256 ^ k
pow_256_suc k = rw pow-suc (omega arith)

pub from_le-le_bytes : (k v : ℕ) → v < 256 ^ k → from_le (le_bytes k v) ≡ v
unfolding le_bytes from_le
from_le-le_bytes zero v h = omega arith
from_le-le_bytes (suc k) v h =
    omega (arith, from_le-le_bytes k (v / 256) (omega (arith, pow_256_suc k)))

-- Every word of four bytes is below 2 ^ 32, whatever its bytes are.
pub from_le-lt : (bs : Bytes) → IsBytes bs → from_le bs < 256 ^ length bs
unfolding from_le
from_le-lt [] h = omega arith
from_le-lt (b ∷ bs) (h, hs) = omega (arith, from_le-lt bs hs, pow_256_suc (length bs))

-- The test of the bytes, for one given by its digits.
pub all-IsBytes : (bs : Bytes) → all (λ b. ltb b 256) bs ≡ true → IsBytes bs
all-IsBytes [] h = tt
all-IsBytes (b ∷ bs) h =
    let (first, rest) = and_parts (ltb b 256) (all (λ b. ltb b 256) bs) h in
    (ltb→lt b 256 first, all-IsBytes bs rest)
