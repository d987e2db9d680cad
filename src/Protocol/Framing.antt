-- ===== src/Protocol/Framing.antt =====
-- `encode_message` and the functions of protocol.rs that read a frame off a socket. The socket is
-- the bytes that still come before it closes; what is left of them is returned.
pub mod RoundTrip
pub mod Delivery
pub mod Soundness
use forever.Prelude.{
  ℕ, ◌+◌, ◌-◌, Bool, [], ◌∷◌, ◌++◌, ◌&&◌, leb, ltb, ◌==◌, if◌then◌else◌, not, length, take, drop,
}
use forever.Bytes.{Bytes, from_le}
use forever.Protocol.Error.{
  Result, ok, err, panicked, ◌>>=◌, ◌>>◌, invalid_length, io, unexpected_code,
  unexpected_distributed_code,
}
use forever.Protocol.Codes.{
  max_message_length, max_peer_message_length, max_profile_message_length, max_peer_init_length,
  max_distributed_message_length,
}
use forever.Protocol.Types.{Frame, DistributedFrame}
use forever.Protocol.Writer.{push_u32, u32_range}
use forever.Protocol.Reader.{Reader, evaluate}

unfoldable pub encode_message : ℕ → Bytes → Result Bytes
encode_message code payload =
    if ltb (4 + length payload) u32_range
    then ok (push_u32 (push_u32 [] (4 + length payload)) code ++ payload)
    else panicked

-- `reader.read_exact(&mut payload)`: the socket may close first.
unfoldable pub read_exact : ℕ → Bytes → Result (Bytes × Bytes)
read_exact n stream = if leb n (length stream) then ok (take n stream, drop n stream) else err io

-- `reader.read_u32_le()`, `reader.read_u8()`
unfoldable pub stream_u32 : Bytes → Result (ℕ × Bytes)
unfolding read_exact
stream_u32 stream = do (bytes, rest) ← read_exact 4 stream; ok (from_le bytes, rest)

unfoldable pub stream_u8 : Bytes → Result (ℕ × Bytes)
stream_u8 [] = err io
stream_u8 (b ∷ rest) = ok (b, rest)

unfoldable pub read_frame_with_limit : ℕ → Bytes → Result (Frame × Bytes)
read_frame_with_limit maximum stream = do
  (length, rest) ← stream_u32 stream
  if leb 4 length && leb length maximum
      then (do
        (code, rest') ← stream_u32 rest
        (payload, rest'') ← read_exact (length - 4) rest'
        ok (record { code = code; payload = payload }, rest''))
      else err (invalid_length length)

unfoldable pub read_frame : Bytes → Result (Frame × Bytes)
read_frame = read_frame_with_limit max_message_length

unfoldable pub read_peer_frame : Bytes → Result (Frame × Bytes)
read_peer_frame = read_frame_with_limit max_peer_message_length

unfoldable pub read_profile_frame : Bytes → Result (Frame × Bytes)
read_profile_frame = read_frame_with_limit max_profile_message_length

unfoldable pub read_distributed_frame : Bytes → Result (DistributedFrame × Bytes)
read_distributed_frame stream = do
  (length, rest) ← stream_u32 stream
  if leb 1 length && leb length max_distributed_message_length
      then (do
        (code, rest') ← stream_u8 rest
        (payload, rest'') ← read_exact (length - 1) rest'
        ok (record { code = code; payload = payload }, rest''))
      else err (invalid_length length)

-- The frame of a `PeerInit`: its code and payload, before `parse_peer_init`.
unfoldable pub read_peer_init_frame : Bytes → Result ((ℕ × Bytes) × Bytes)
read_peer_init_frame stream = do
  (length, rest) ← stream_u32 stream
  if leb 1 length && leb length max_peer_init_length
      then (do
        (code, rest') ← stream_u8 rest
        (payload, rest'') ← read_exact (length - 1) rest'
        ok ((code, payload), rest''))
      else err (invalid_length length)

-- `expect_code`, which most parsers write out.
unfoldable pub expect_code : Frame → ℕ → Result (Unit {0})
expect_code frame expected =
    if frame.code == expected then ok tt else err (unexpected_code expected frame.code)

-- A parser: the code is checked, and then a `PayloadReader` reads the payload.
unfoldable pub decode {ℓ} : {A : Type ℓ} → Frame → ℕ → Reader A → Result A
unfolding expect_code
decode frame expected body = do expect_code frame expected; evaluate body frame.payload

unfoldable pub decode_distributed {ℓ} : {A : Type ℓ} → DistributedFrame → ℕ → Reader A → Result A
decode_distributed frame expected body =
    if frame.code == expected
    then evaluate body frame.payload
    else err (unexpected_distributed_code expected frame.code)
