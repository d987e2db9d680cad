-- ===== src/Protocol/Framing/Soundness.antt =====
-- A parser of protocol.rs on any frame: the rule that brings what its body ensures to its result.
use forever.Prelude.{ℕ, Bool, true, false, ◌==◌, if◌then◌else◌}
use forever.Bytes.{IsBytes}
use forever.Protocol.Error.{
  Result, ok, err, panicked, ProtocolError, ◌>>=◌, unexpected_code, unexpected_distributed_code,
}
use forever.Protocol.Types.{Frame, DistributedFrame}
use forever.Protocol.Reader.{Reader}
use forever.Protocol.Reader.Ensures.{Ensures, Sound, Ensures-evaluate}
use forever.Protocol.Framing.{expect_code, decode, decode_distributed}

guarded :
    {A : Type 0} (P : A → Type 0) (b : Bool) (e : ProtocolError) (r : Result A)
    → Sound P r
    → Sound P (if b then r else err e)
guarded P true e r h = h
guarded P false e r h = tt

guarded_bind :
    {A : Type 0} (P : A → Type 0) (b : Bool) (e : ProtocolError) (r : Result A)
    → Sound P r
    → Sound P ((if b then ok (tt) else err e) >>= λ (_ : Unit {0}). r)
guarded_bind P true e r h = h
guarded_bind P false e r h = tt

pub decode-Sound :
    {A : Type 0} {P : A → Type 0} {body : Reader A} (frame : Frame) (code : ℕ)
    → Ensures P body
    → IsBytes frame.payload
    → Sound P (decode frame code body)
unfolding decode
decode-Sound {P} frame code h bytes =
    guarded_bind P (frame.code == code) (unexpected_code code frame.code) _
      (Ensures-evaluate frame.payload h bytes)

pub decode_distributed-Sound :
    {A : Type 0} {P : A → Type 0} {body : Reader A} (frame : DistributedFrame) (code : ℕ)
    → Ensures P body
    → IsBytes frame.payload
    → Sound P (decode_distributed frame code body)
unfolding decode_distributed
decode_distributed-Sound {P} frame code h bytes =
    guarded P (frame.code == code) (unexpected_distributed_code code frame.code) _
      (Ensures-evaluate frame.payload h bytes)

-- A check of the code before anything else.
pub expect_code-Sound :
    {A : Type 0} (P : A → Type 0) (frame : Frame) (code : ℕ) (r : Result A)
    → Sound P r
    → Sound P (expect_code frame code >>= λ _. r)
unfolding expect_code
expect_code-Sound P frame code r h =
    guarded_bind P (frame.code == code) (unexpected_code code frame.code) r h

-- A step whose value the next one takes.
pub Sound-bind :
    {A B : Type 0} (P : A → Type 0) (Q : B → Type 0) (m : Result A) (f : A → Result B)
    → Sound P m
    → ((a : A) → P a → Sound Q (f a))
    → Sound Q (m >>= f)
Sound-bind P Q (ok a) f h k = k a h
Sound-bind P Q (err e) f h k = tt
Sound-bind P Q panicked f h k = h
