-- ===== src/Protocol/Reader.antt =====
-- `PayloadReader` of protocol.rs: a slice and a position in it. A method that takes `&mut self` and
-- returns a `Result` is an action of `Reader`; `?` is its bind.
pub mod Reads
pub mod Ensures
use forever.Prelude.{
  ℕ, zero, suc, ◌+◌, ◌-◌, ◌^◌, ◌≤◌, Bool, true, false, not, Option, none, some, List, [], ◌∷◌, leb,
  ltb, ◌==◌, if◌then◌else◌, length, take, drop, get_elem?,
}
use forever.Prelude.Int.{ℤ}
use forever.Bytes.{Bytes, from_le, i32_of}
use forever.Text.Utf8.{from_utf8, from_utf8_lossy}
use forever.Protocol.Error.{
  Result, ok, err, panicked, ProtocolError, truncated_payload, invalid_utf8,
}
use forever.Protocol.Types.{Ipv4Addr}

pub record PayloadReader : Type 0 where
  pub payload : Bytes
  pub position : ℕ

abbrev pub new : Bytes → PayloadReader
new payload = record { payload = payload; position = 0 }

abbrev pub Reader {ℓ} : Type ℓ → Type ℓ
Reader A = PayloadReader → Result (A × PayloadReader)

module _ {ℓ} {A : Type ℓ} where
  unfoldable pub pure : A → Reader A
  pure a r = ok (a, r)

  unfoldable pub fail : ProtocolError → Reader A
  fail e r = err e

  -- A reader that is dropped after its last read.
  unfoldable pub evaluate : Reader A → Bytes → Result A
  evaluate m payload = elim (m (new payload)) [
    | ok (a, _) ↦ ok a
    | err e ↦ err e
    | panicked ↦ panicked
  ]

module _ {ℓ κ} {A : Type ℓ} {B : Type κ} where
  infixl 5 ◌>>=◌ ◌>>◌
  unfoldable pub ◌>>=◌ : Reader A → (A → Reader B) → Reader B
  ◌>>=◌ m f r = elim (m r) [ ok (a, r') ↦ f a r' | err e ↦ err e | panicked ↦ panicked ]

  abbrev pub ◌>>◌ : Reader A → Reader B → Reader B
  m >> n = m >>= λ _. n

-- `if bad { return Err(e); }`
unfoldable pub reject : Bool → ProtocolError → Reader (Unit {0})
reject true e r = err e
reject false e r = ok (tt, r)

-- `self.payload.len().saturating_sub(self.position)`
unfoldable pub remaining : Reader ℕ
remaining r = ok (length r.payload - r.position, r)

-- The bound of a `usize` on the 64-bit targets that the app is built for.
abbrev pub usize_range : ℕ
usize_range = 2 ^ 64

-- `self.payload.get(self.position..end)`
get_range : Bytes → ℕ → ℕ → Option Bytes
get_range payload from to =
    if leb from to
    then (if leb to (length payload) then some (take (to - from) (drop from payload)) else none)
    else none

unfoldable pub read_bytes : ℕ → Reader Bytes
unfolding get_range
read_bytes n r =
    let end = r.position + n in
    if ltb end usize_range
    then (elim (get_range r.payload r.position end) [
      | some bytes ↦ ok (bytes, record r { position = end })
      | none ↦ err truncated_payload
    ])
    else err truncated_payload

unfoldable pub read_u8 : Reader ℕ
read_u8 r = elim (get_elem? r.payload r.position) [
  | some value ↦ ok (value, record r { position = r.position + 1 })
  | none ↦ err truncated_payload
]

unfoldable pub read_bool : Reader Bool
read_bool r = elim (get_elem? r.payload r.position) [
  | some value ↦ ok (not (value == 0), record r { position = r.position + 1 })
  | none ↦ err truncated_payload
]

-- `uN::from_le_bytes(bytes.try_into().expect(…))`: the array has `size` bytes.
unfoldable pub expect_word : ℕ → Bytes → Reader ℕ
expect_word size bytes r = if length bytes == size then ok (from_le bytes, r) else panicked

unfoldable pub read_u16 : Reader ℕ
read_u16 = do bytes ← read_bytes 2; expect_word 2 bytes

unfoldable pub read_u32 : Reader ℕ
read_u32 = do bytes ← read_bytes 4; expect_word 4 bytes

unfoldable pub read_u64 : Reader ℕ
read_u64 = do bytes ← read_bytes 8; expect_word 8 bytes

unfoldable pub read_i32 : Reader ℤ
read_i32 = do bytes ← read_bytes 4; word ← expect_word 4 bytes; pure (i32_of word)

unfoldable pub or_invalid_utf8 : Option Bytes → Reader Bytes
or_invalid_utf8 (some s) = pure s
or_invalid_utf8 none = fail invalid_utf8

unfoldable pub read_string : Reader Bytes
unfolding or_invalid_utf8
read_string = do length ← read_u32; bytes ← read_bytes length; or_invalid_utf8 (from_utf8 bytes)

unfoldable pub read_string_lossy : Reader Bytes
read_string_lossy = do length ← read_u32; bytes ← read_bytes length; pure (from_utf8_lossy bytes)

-- The octets stand in reverse on the wire. A slice of four has no fifth case to fail in.
reversed_ipv4 : Bytes → Reader Ipv4Addr
reversed_ipv4 (w ∷ x ∷ y ∷ z ∷ []) r = ok (record { a = z; b = y; c = x; d = w }, r)
reversed_ipv4 _ r = panicked

unfoldable pub read_ipv4 : Reader Ipv4Addr
unfolding reversed_ipv4
read_ipv4 = do bytes ← read_bytes 4; reversed_ipv4 bytes

-- `for _ in 0..count { items.push(item) }`
module _ {ℓ} {A : Type ℓ} where
  unfoldable pub repeat : ℕ → Reader A → Reader (List A)
  repeat zero item = pure []
  repeat (suc n) item = do x ← item; xs ← repeat n item; pure (x ∷ xs)

  -- `if b { item } else { default }`
  unfoldable pub read_if : Bool → Reader A → A → Reader A
  read_if true item default = item
  read_if false item default = pure default
