-- ===== src/Protocol/Framing/RoundTrip.antt =====
-- A frame that `encode_message` of protocol.rs wrote is read back whole.
use forever.Prelude.{
  ℕ, ◌+◌, ◌-◌, ◌≤◌, ◌<◌, ◌≡◌, ◌∷◌, ◌++◌, append_assoc, length, length-append, take-append,
  drop-append, arith, lt→ltb, le→leb,
}
use forever.Bytes.{Bytes, le_bytes}
use forever.Bytes.Laws.{length-le_bytes, from_le-le_bytes}
use forever.Protocol.Error.{ok, ◌>>=◌}
use forever.Protocol.Writer.{push_u32, u32_range}
use forever.Protocol.Framing.{
  encode_message, read_exact, stream_u32, read_frame_with_limit, stream_u8, read_peer_init_frame,
  read_distributed_frame,
}
use forever.Protocol.Codes.{max_peer_init_length, max_distributed_message_length}

-- A message on the wire: the length of what follows, the code, the payload.
unfoldable pub message : ℕ → Bytes → Bytes
message code payload = le_bytes 4 (4 + length payload) ++ (le_bytes 4 code ++ payload)

pub encode_message_lem :
    (code : ℕ) (payload : Bytes)
    → 4 + length payload < u32_range
    → encode_message code payload ≡ ok (message code payload)
unfolding encode_message message push_u32
encode_message_lem code payload h = rw (
  lt→ltb (4 + length payload) u32_range h,
  append_assoc (le_bytes 4 (4 + length payload)) (le_bytes 4 code) payload,
)

pub read_exact_lem : (e rest : Bytes) → read_exact (length e) (e ++ rest) ≡ ok (e, rest)
unfolding read_exact
read_exact_lem e rest = rw (
  le→leb (length e) (length (e ++ rest)) (omega (arith, length-append e rest)),
  take-append e rest,
  drop-append e rest,
)

read_exact_word :
    (v : ℕ) (rest : Bytes) → read_exact 4 (le_bytes 4 v ++ rest) ≡ ok (le_bytes 4 v, rest)
read_exact_word v rest = rw length-le_bytes at (read_exact_lem (le_bytes 4 v) rest)

pub stream_u32_lem :
    (v : ℕ) (rest : Bytes) → v < u32_range → stream_u32 (le_bytes 4 v ++ rest) ≡ ok (v, rest)
unfolding stream_u32
stream_u32_lem v rest h = rw (read_exact_word v rest, from_le-le_bytes 4 v (omega arith))

-- The layout that both sides agree on is read back.
pub read_frame_with_limit-message :
    (maximum code : ℕ) (payload rest : Bytes)
    → code < u32_range
    → 4 + length payload < u32_range
    → 4 + length payload ≤ maximum
    → read_frame_with_limit maximum (message code payload ++ rest)
      ≡ ok (record { code = code; payload = payload }, rest)
unfolding read_frame_with_limit message
read_frame_with_limit-message maximum code payload rest hc hp hm =
    let size : 4 + length payload - 4 ≡ length payload = omega arith in
    rw (
      append_assoc (le_bytes 4 (4 + length payload)) (le_bytes 4 code ++ payload) rest,
      append_assoc (le_bytes 4 code) payload rest,
      stream_u32_lem (4 + length payload) (le_bytes 4 code ++ (payload ++ rest)) hp,
      le→leb 4 (4 + length payload) (omega arith),
      le→leb (4 + length payload) maximum hm,
      stream_u32_lem code (payload ++ rest) hc,
      size,
      read_exact_lem payload rest,
    )

-- What `encode_message` makes of a code and a payload is a frame, and reading it off a stream
-- gives back the code and the payload and leaves what follows it, for every limit that the message
-- keeps and a code and a length that fit 32 bits.
pub read_frame_with_limit-encode_message :
    (maximum code : ℕ) (payload rest : Bytes)
    → code < u32_range
    → 4 + length payload < u32_range
    → 4 + length payload ≤ maximum
    → (encode_message code payload >>= λ frame. read_frame_with_limit maximum (frame ++ rest))
      ≡ ok (record { code = code; payload = payload }, rest)
read_frame_with_limit-encode_message maximum code payload rest hc hp hm =
    rw (encode_message_lem code payload hp)
      (read_frame_with_limit-message maximum code payload rest hc hp hm)

-- A message whose code is one byte: the `PeerInit` messages and those of the distributed network.
unfoldable pub short_message : ℕ → Bytes → Bytes
short_message code payload = le_bytes 4 (length payload + 1) ++ (code ∷ payload)

module _ (code : ℕ) (payload rest : Bytes) (small : length payload + 1 < u32_range) where
  size : length payload + 1 - 1 ≡ length payload
  size = omega arith

  -- A `PeerInit` message within its limit is read off a socket whole.
  pub read_peer_init_frame-short_message :
      length payload + 1 ≤ max_peer_init_length
      → read_peer_init_frame (short_message code payload ++ rest) ≡ ok ((code, payload), rest)
  unfolding read_peer_init_frame short_message stream_u8
  read_peer_init_frame-short_message fits = rw (
    append_assoc (le_bytes 4 (length payload + 1)) (code ∷ payload) rest,
    stream_u32_lem (length payload + 1) (code ∷ (payload ++ rest)) small,
    le→leb 1 (length payload + 1) (omega arith),
    le→leb (length payload + 1) max_peer_init_length fits,
    size,
    read_exact_lem payload rest,
  )

  pub read_distributed_frame-short_message :
      length payload + 1 ≤ max_distributed_message_length
      → read_distributed_frame (short_message code payload ++ rest)
        ≡ ok (record { code = code; payload = payload }, rest)
  unfolding read_distributed_frame short_message stream_u8
  read_distributed_frame-short_message fits = rw (
    append_assoc (le_bytes 4 (length payload + 1)) (code ∷ payload) rest,
    stream_u32_lem (length payload + 1) (code ∷ (payload ++ rest)) small,
    le→leb 1 (length payload + 1) (omega arith),
    le→leb (length payload + 1) max_distributed_message_length fits,
    size,
    read_exact_lem payload rest,
  )
