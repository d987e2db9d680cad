-- ===== src/Protocol/Error.antt =====
-- `ProtocolError` of protocol.rs, and the outcome of a call that may return it or panic.
use forever.Prelude.{ℕ, String}
use forever.Prelude.Int.{ℤ}

-- `io` and `invalid_utf8` carry no detail: nothing reads it but the message for a log.
pub data ProtocolError : Type 0 where
  invalid_length : ℕ → ProtocolError
  truncated_payload : ProtocolError
  unexpected_code : ℕ → ℕ → ProtocolError
  unexpected_distributed_code : ℕ → ℕ → ProtocolError
  invalid_distributed_identifier : ℕ → ProtocolError
  invalid_distributed_search : ProtocolError
  invalid_distributed_branch_level : ℤ → ProtocolError
  invalid_distributed_branch_root : ProtocolError
  invalid_user_data : ProtocolError
  invalid_user_info : ProtocolError
  invalid_private_message : ProtocolError
  invalid_room_message : ProtocolError
  unexpected_peer_init_code : ℕ → ProtocolError
  invalid_count : String → ℕ → ProtocolError
  decompressed_payload_too_large : ProtocolError
  invalid_utf8 : ProtocolError
  io : ProtocolError

-- `panicked` is the panic of an `expect`.
pub data Result {ℓ} (A : Type ℓ) : Type ℓ where
  ok : A → Result A
  err : ProtocolError → Result A
  panicked : Result A

module _ {ℓ κ} {A : Type ℓ} {B : Type κ} where
  infixl 5 ◌>>=◌ ◌>>◌
  abbrev pub ◌>>=◌ : Result A → (A → Result B) → Result B
  ok a >>= f = f a
  err e >>= f = err e
  panicked >>= f = panicked

  abbrev pub ◌>>◌ : Result A → Result B → Result B
  m >> n = m >>= λ _. n
