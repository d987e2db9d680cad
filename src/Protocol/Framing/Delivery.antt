-- ===== src/Protocol/Framing/Delivery.antt =====
-- A frame that one side writes, as the other side reads and parses it.
use forever.Prelude.{ℕ, ◌+◌, ◌≤◌, ◌<◌, ◌≡◌, ◌++◌, length, arith, ==_refl}
use forever.Bytes.{Bytes}
use forever.Protocol.Error.{Result, ok, ◌>>=◌}
use forever.Protocol.Types.{Frame}
use forever.Protocol.Writer.{u32_range}
use forever.Protocol.Reader.{Reader, usize_range}
use forever.Protocol.Reader.Reads.{Ends, Ends-evaluate}
use forever.Protocol.Framing.{encode_message, read_frame_with_limit, decode}
use forever.Protocol.Framing.RoundTrip.{encode_message_lem, read_frame_with_limit-message}

-- Read a frame off a socket and parse it; what follows it stays on the socket.
abbrev pub receive {ℓ} :
    {A : Type ℓ}
    → (Bytes → Result (Frame × Bytes))
    → (Frame → Result A)
    → Bytes
    → Result (A × Bytes)
receive read parse stream = read stream >>= λ (frame, rest). parse frame >>= λ a. ok (a, rest)

-- What the receiver gets of a frame that is sent with `rest` behind it.
abbrev pub delivered {ℓ} :
    {A : Type ℓ}
    → (Bytes → Result (Frame × Bytes))
    → (Frame → Result A)
    → Result Bytes
    → Bytes
    → Result (A × Bytes)
delivered read parse frame rest = frame >>= λ bytes. receive read parse (bytes ++ rest)

pub decode_lem {ℓ} :
    {A : Type ℓ} (code : ℕ) (payload : Bytes) (body : Reader A) (a : A)
    → Ends body payload a
    → length payload < usize_range
    → decode (record { code = code; payload = payload }) code body ≡ ok a
unfolding decode
decode_lem code payload body a h small = rw (==_refl code) (Ends-evaluate body payload a h small)

-- A message whose payload the parser's body reads to its end is delivered.
pub deliver {ℓ} :
    {A : Type ℓ} (maximum code : ℕ) (payload : Bytes) (body : Reader A) (a : A) (rest : Bytes)
    → code < u32_range
    → 4 + length payload < u32_range
    → 4 + length payload ≤ maximum
    → Ends body payload a
    → delivered
        (read_frame_with_limit maximum)
        (λ frame. decode frame code body)
        (encode_message code payload)
        rest
      ≡ ok (a, rest)
deliver maximum code payload body a rest hc hp hm h = rw (
  encode_message_lem code payload hp,
  read_frame_with_limit-message maximum code payload rest hc hp hm,
  decode_lem code payload body a h (omega arith),
)
