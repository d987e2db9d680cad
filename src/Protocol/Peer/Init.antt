-- ===== src/Protocol/Peer/Init.antt =====
-- The first message of a peer connection, from the peer that opens it to the one that accepts.
use forever.Prelude.{
  ℕ, ◌+◌, ◌≤◌, ◌<◌, ◌^◌, ◌≡◌, refl, [], ◌++◌, length, arith, append_assoc, lt→ltb,
}
use forever.Bytes.{Bytes, le_bytes}
use forever.Text.Utf8.{IsText}
use forever.Protocol.Error.{ok, ◌>>=◌}
use forever.Protocol.Codes.{max_peer_init_length}
use forever.Protocol.Types.{pierce_firewall, peer}
use forever.Protocol.Writer.{push_u32, u32_range}
use forever.Protocol.Writer.Layout.{string_bytes, push_string_lem, payload_sizes}
use forever.Protocol.Reader.{read_if}
use forever.Protocol.Reader.Reads.{
  Ends, Reads-bind_pure, Reads-Ends, Ends-bind, Ends-pure, Ends-remaining, Ends-evaluate,
  Reads-read_u32, Reads-read_string_lossy,
}
use forever.Protocol.Framing.RoundTrip.{short_message, read_peer_init_frame-short_message}
use forever.Protocol.Outgoing.Peer.{peer_init_frame, framed_init, pierce_firewall_frame}
use forever.Protocol.Peer.{read_pierce, read_peer, parse_peer_init, read_peer_init}

-- The payload of `peer_init_frame`.
abbrev init_layout : Bytes → Bytes → Bytes
init_layout username connection_type =
    string_bytes username ++ (string_bytes connection_type ++ (le_bytes 4 0 ++ []))

peer_init_frame_lem :
    (username connection_type : Bytes)
    → length username + length connection_type + 13 ≤ max_peer_init_length
    → peer_init_frame username connection_type
      ≡ ok (short_message 1 (init_layout username connection_type))
unfolding peer_init_frame framed_init push_u32 short_message le_bytes
peer_init_frame_lem username connection_type fits =
    let size : length (init_layout username connection_type)
        ≡ length username + length connection_type + 12 =
      omega payload_sizes in
    rw (
      push_string_lem [] username (omega arith),
      push_string_lem (string_bytes username) connection_type (omega arith),
      append_assoc (string_bytes username) (string_bytes connection_type) (le_bytes 4 0),
      lt→ltb (length (init_layout username connection_type) + 1) u32_range (omega arith),
    )

body :
    (username connection_type : Bytes)
    → IsText username
    → IsText connection_type
    → length username < 2 ^ 32
    → length connection_type < 2 ^ 32
    → Ends read_peer (init_layout username connection_type) (peer username connection_type 0)
unfolding read_peer read_if le_bytes
body username connection_type tu tc hu hc = Ends-bind _ (Reads-read_string_lossy username hu tu) (
    Ends-bind _ (Reads-read_string_lossy connection_type hc tc)
      (Ends-remaining _ _ _ (Ends-bind _ (Reads-read_u32 0 (omega arith)) (Ends-pure _))))

-- The peer that accepts a connection reads the name and the type that `peer_init_frame` was given,
-- with the token 0, and nothing of what follows, if both are UTF-8 and fit the limit on the
-- message.
pub read_peer_init-peer_init_frame :
    (username connection_type rest : Bytes)
    → IsText username
    → IsText connection_type
    → length username + length connection_type + 13 ≤ max_peer_init_length
    → (peer_init_frame username connection_type >>= λ bytes. read_peer_init (bytes ++ rest))
      ≡ ok (peer username connection_type 0, rest)
unfolding read_peer_init parse_peer_init
read_peer_init-peer_init_frame username connection_type rest tu tc fits =
    let size : length (init_layout username connection_type)
        ≡ length username + length connection_type + 12 =
      omega payload_sizes in
    rw (
      peer_init_frame_lem username connection_type fits,
      read_peer_init_frame-short_message 1 (init_layout username connection_type) rest (omega arith)
          (omega arith),
      Ends-evaluate read_peer _ _ (body username connection_type tu tc (omega arith) (omega arith))
          (omega arith),
    )

pierce_layout : (token : ℕ) → pierce_firewall_frame token ≡ short_message 0 (le_bytes 4 token)
unfolding pierce_firewall_frame push_u32 short_message le_bytes
pierce_layout token = refl

-- The token of `pierce_firewall_frame`, a 32-bit number, comes back from `read_peer_init`, and
-- what follows the frame is left.
pub read_peer_init-pierce_firewall_frame :
    (token : ℕ) (rest : Bytes)
    → token < 2 ^ 32
    → read_peer_init (pierce_firewall_frame token ++ rest) ≡ ok (pierce_firewall token, rest)
unfolding read_peer_init parse_peer_init read_pierce
read_peer_init-pierce_firewall_frame token rest ht = rw (
  pierce_layout token,
  read_peer_init_frame-short_message 0 (le_bytes 4 token) rest (omega payload_sizes)
      (omega payload_sizes),
  Ends-evaluate read_pierce _ _
      (Reads-Ends (Reads-bind_pure pierce_firewall (Reads-read_u32 token ht)))
      (omega payload_sizes),
)
