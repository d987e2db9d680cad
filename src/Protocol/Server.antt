-- ===== src/Protocol/Server.antt =====
-- The parsers of protocol.rs for what the server sends: login, addresses, messages and lists.
pub mod Limits
use forever.Prelude.{
  ℕ, ◌+◌, ◌/◌, Bool, true, false, ◌&&◌, ◌||◌, not, Option, none, some, List, [], ◌∷◌, leb, ltb,
  ◌==◌, if◌then◌else◌, length,
}
use forever.Bytes.{Bytes, bytes_eq}
use forever.Protocol.Error.{Result, err, invalid_length, invalid_count, invalid_private_message, ok}
use forever.Protocol.Codes.{
  login_code, connect_to_peer_code, get_peer_address_code, message_user_code, file_search_code,
  privileged_users_code, excluded_search_phrases_code, wishlist_interval_code,
  cant_connect_to_peer_code, max_network_username_bytes, max_private_message_bytes,
  max_excluded_phrases, max_excluded_phrase_bytes,
}
use forever.Protocol.Types.{
  Frame, LoginResponse, accepted, rejected, ConnectToPeer, PeerAddress, PrivateMessage,
}
use forever.Protocol.Reader.{
  Reader, pure, ◌>>=◌, ◌>>◌, reject, remaining, read_bytes, read_bool, read_u16, read_u32,
  read_string, read_string_lossy, read_ipv4, repeat, read_if, or_invalid_utf8, evaluate,
}
use forever.Text.Utf8.{from_utf8}
use forever.Protocol.Framing.{decode, expect_code}
use forever.Protocol.Fields.{bounded_count, empty_or_over}

-- "INVALIDUSERNAME"
abbrev invalid_username : Bytes
invalid_username =
    b'I' ∷ b'N' ∷ b'V' ∷ b'A' ∷ b'L' ∷ b'I' ∷ b'D' ∷ b'U' ∷ b'S' ∷ b'E' ∷ b'R' ∷ b'N' ∷ b'A' ∷ b'M'
    ∷ b'E' ∷ []

read_detail : Reader (Option Bytes)
read_detail = do detail ← read_string; pure (some detail)

login_accepted : Reader LoginResponse
login_accepted = do
  greeting ← read_string
  _ ← read_u32
  _ ← read_string
  supporter ← read_bool
  pure (accepted greeting supporter)

login_rejected : Reader LoginResponse
unfolding read_detail
login_rejected = do
  reason ← read_string
  left ← remaining
  detail ← read_if (bytes_eq reason invalid_username && ltb 0 left) read_detail none
  pure (rejected reason detail)

pub parse_login_response : Frame → Result LoginResponse
unfolding login_accepted login_rejected
parse_login_response frame =
    decode frame login_code
      do is_accepted ← read_bool; if is_accepted then login_accepted else login_rejected

pub parse_connect_to_peer : Frame → Result ConnectToPeer
parse_connect_to_peer frame = decode frame connect_to_peer_code do
  username ← read_string_lossy
  connection_type ← read_string_lossy
  address ← read_ipv4
  port ← read_u32
  token ← read_u32
  _ ← read_bool
  _ ← read_u32
  _ ← read_u32
  pure (record {
    username = username;
    connection_type = connection_type;
    address = address;
    port = port;
    token = token;
  })

pub parse_peer_address : Frame → Result PeerAddress
parse_peer_address frame = decode frame get_peer_address_code do
  username ← read_string_lossy
  address ← read_ipv4
  port ← read_u32
  left ← remaining
  _ ← read_if (leb 4 left) read_u32 0
  left ← remaining
  _ ← read_if (leb 2 left) read_u16 0
  pure (record { username = username; address = address; port = port })

pub parse_server_search_request : Frame → Result (Bytes × ℕ × Bytes)
parse_server_search_request frame = decode frame file_search_code do
  username ← read_string_lossy
  token ← read_u32
  query ← read_string_lossy
  pure (username, token, query)

pub parse_private_message : Frame → Result PrivateMessage
parse_private_message frame = decode frame message_user_code do
  id ← read_u32
  timestamp_seconds ← read_u32
  username ← read_string_lossy
  message ← read_string_lossy
  is_new ← read_bool
  reject
      (empty_or_over max_network_username_bytes username
        || empty_or_over max_private_message_bytes message)
      invalid_private_message
  pure (record {
    id = id;
    timestamp_seconds = timestamp_seconds;
    username = username;
    message = message;
    is_new = is_new;
  })

-- One round of the loop of `parse_privileged_users`.
read_privileged_user : Reader Bytes
unfolding or_invalid_utf8
read_privileged_user = do
  length ← read_u32
  reject (length == 0 || ltb max_network_username_bytes length) (invalid_length length)
  bytes ← read_bytes length
  or_invalid_utf8 (from_utf8 bytes)

pub parse_privileged_users : Frame → Result (List Bytes)
unfolding read_privileged_user
parse_privileged_users frame = decode frame privileged_users_code do
  count ← read_u32
  left ← remaining
  reject (ltb 100_000 count || ltb (left / 5) count) (invalid_count "privileged users" count)
  users ← repeat count read_privileged_user
  left ← remaining
  reject (not (left == 0)) (invalid_length left)
  pure users

read_phrase : Reader Bytes
unfolding or_invalid_utf8
read_phrase = do
  length ← read_u32
  reject (ltb max_excluded_phrase_bytes length) (invalid_length length)
  bytes ← read_bytes length
  or_invalid_utf8 (from_utf8 bytes)

pub parse_excluded_search_phrases : Frame → Result (List Bytes)
unfolding read_phrase
parse_excluded_search_phrases frame = decode frame excluded_search_phrases_code do
  n ← read_u32
  count ← bounded_count n max_excluded_phrases "excluded phrases"
  phrases ← repeat count read_phrase
  left ← remaining
  reject (not (left == 0)) (invalid_length (length frame.payload))
  pure phrases

pub parse_wishlist_interval : Frame → Result ℕ
parse_wishlist_interval frame =
    decode frame wishlist_interval_code
      do reject (not (length frame.payload == 4)) (invalid_length (length frame.payload)); read_u32

pub parse_cant_connect_token : Frame → Result ℕ
parse_cant_connect_token frame = decode frame cant_connect_to_peer_code read_u32
