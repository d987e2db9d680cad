-- ===== src/Protocol/Listings/Packed.antt =====
-- A compressed message, from the one that packs it to the one that unpacks it.
use forever.Prelude.{ℕ, ◌+◌, ◌≤◌, ◌<◌, ◌≡◌, some, length, arith, take-all, le→ltb_false, ==_refl}
use forever.Bytes.{Bytes}
use forever.Protocol.Error.{ok}
use forever.Protocol.Codes.{max_peer_message_length}
use forever.Protocol.Writer.{u32_range}
use forever.Protocol.Reader.{Reader, usize_range}
use forever.Protocol.Reader.Reads.{Ends, Ends-evaluate}
use forever.Protocol.Framing.{read_peer_frame, expect_code}
use forever.Protocol.Framing.RoundTrip.{encode_message_lem, read_frame_with_limit-message}
use forever.Protocol.Framing.Delivery.{delivered}
use forever.Protocol.Listings.Zlib.{Zlib, IsLossless, or_io, decompress}
use forever.Protocol.Listings.Read.{decode_packed}
use forever.Protocol.Listings.Write.{encode_compressed_message}

module _ (z : Zlib) (lossless : IsLossless z) where
  decompress_lem :
      (maximum : ℕ) (payload packed : Bytes)
      → z.deflate payload ≡ some packed
      → length payload ≤ maximum
      → decompress z maximum packed ≡ ok payload
  unfolding decompress
  decompress_lem maximum payload packed h small = rw (
    lossless.inflate-deflate (maximum + 1) payload packed h,
    decompress,
    take-all (maximum + 1) payload (omega arith),
    le→ltb_false (length payload) maximum small,
  )

  decode_packed_lem {ℓ} :
      {A : Type ℓ} (code maximum : ℕ) (payload packed : Bytes) (body : Reader A) (a : A)
      → z.deflate payload ≡ some packed
      → length payload ≤ maximum
      → length payload < usize_range
      → Ends body payload a
      → decode_packed z (record { code = code; payload = packed }) code maximum body ≡ ok a
  unfolding decode_packed expect_code
  decode_packed_lem code maximum payload packed body a h small small' e =
      rw (==_refl code, expect_code, decode_packed, decompress_lem maximum payload packed h small)
        (Ends-evaluate body payload a e small')

  -- What was packed is delivered, if it is within the limits before and after the packing.
  pub deliver_packed {ℓ} :
      {A : Type ℓ} (code maximum : ℕ) (payload packed : Bytes) (body : Reader A) (a : A)
      (rest : Bytes)
      → z.deflate payload ≡ some packed
      → code < u32_range
      → 4 + length packed ≤ max_peer_message_length
      → length payload ≤ maximum
      → length payload < usize_range
      → Ends body payload a
      → delivered read_peer_frame
          (λ frame. decode_packed z frame code maximum body)
          (encode_compressed_message z code payload)
          rest
        ≡ ok (a, rest)
  unfolding encode_compressed_message read_peer_frame or_io
  deliver_packed code maximum payload packed body a rest h hc hp small small' e = rw (
    h,
    encode_message_lem code packed (omega arith),
    read_frame_with_limit-message max_peer_message_length code packed rest hc (omega arith) hp,
    decode_packed_lem code maximum payload packed body a h small small' e,
  )
