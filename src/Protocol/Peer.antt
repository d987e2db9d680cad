-- ===== src/Protocol/Peer.antt =====
-- The parsers of protocol.rs for what a peer sends, but its file lists.
pub mod RoundTrip
pub mod Init
use forever.Prelude.{ℕ, Bool, Option, none, some, leb, ◌==◌, if◌then◌else◌, not}
use forever.Bytes.{Bytes}
use forever.Text.{replace_slashes}
use forever.Protocol.Error.{Result, unexpected_peer_init_code, err, ok, ◌>>=◌ as ◌andthen◌}
use forever.Protocol.Codes.{
  transfer_request_code, transfer_response_code, place_in_queue_response_code, upload_denied_code,
  folder_contents_request_code,
}
use forever.Protocol.Types.{Frame, PeerInit, pierce_firewall, peer, TransferRequest}
use forever.Protocol.Reader.{
  Reader, pure, ◌>>=◌, ◌>>◌, evaluate, remaining, read_bool, read_u32, read_u64, read_string_lossy,
  read_if,
}
use forever.Protocol.Framing.{decode, read_peer_init_frame}

-- `reader.read_string_lossy()?.replace('/', "\\")`
unfoldable pub read_path : Reader Bytes
read_path = do text ← read_string_lossy; pure (replace_slashes text)

read_pierce : Reader PeerInit
read_pierce = do token ← read_u32; pure (pierce_firewall token)

read_peer : Reader PeerInit
read_peer = do
  username ← read_string_lossy
  connection_type ← read_string_lossy
  left ← remaining
  token ← read_if (leb 4 left) read_u32 0
  pure (peer username connection_type token)

pub parse_peer_init : ℕ → Bytes → Result PeerInit
unfolding read_pierce read_peer
parse_peer_init code payload =
    if code == 0
    then evaluate read_pierce payload
    else if code == 1
    then evaluate read_peer payload
    else err (unexpected_peer_init_code code)

pub read_peer_init : Bytes → Result (PeerInit × Bytes)
read_peer_init stream = read_peer_init_frame stream andthen λ ((code, payload), rest).
    parse_peer_init code payload andthen λ init. ok (init, rest)

read_size : Reader (Option ℕ)
read_size = do size ← read_u64; pure (some size)

pub parse_transfer_request : Frame → Result TransferRequest
unfolding read_size
parse_transfer_request frame = decode frame transfer_request_code do
  direction ← read_u32
  token ← read_u32
  filename ← read_path
  size_bytes ← read_if (direction == 1) read_size none
  pure (record {
    direction = direction;
    token = token;
    filename = filename;
    size_bytes = size_bytes;
  })

read_reason : Reader (Option Bytes)
read_reason = do reason ← read_string_lossy; pure (some reason)

transfer_response : Reader (ℕ × Bool × Option Bytes)
unfolding read_reason
transfer_response = do
  token ← read_u32
  allowed ← read_bool
  reason ← read_if (not allowed) read_reason none
  pure (token, allowed, reason)

pub parse_transfer_response : Frame → Result (ℕ × Bool × Option Bytes)
parse_transfer_response frame = decode frame transfer_response_code transfer_response

pub parse_queue_position : Frame → Result (Bytes × ℕ)
parse_queue_position frame =
    decode frame place_in_queue_response_code
      do filename ← read_path; position ← read_u32; pure (filename, position)

pub parse_filename : Frame → ℕ → Result Bytes
parse_filename frame expected_code = decode frame expected_code read_path

pub parse_upload_denied : Frame → Result (Bytes × Bytes)
parse_upload_denied frame =
    decode frame upload_denied_code
      do filename ← read_path; reason ← read_string_lossy; pure (filename, reason)

pub parse_folder_contents_request : Frame → Result (ℕ × Bytes)
parse_folder_contents_request frame =
    decode frame folder_contents_request_code
      do token ← read_u32; folder ← read_path; pure (token, folder)
