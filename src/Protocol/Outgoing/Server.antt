-- ===== src/Protocol/Outgoing/Server.antt =====
-- The frames that protocol.rs writes to the server.
use forever.Prelude.{ℕ, Bool, not, ◌||◌, [], ◌∷◌, ◌++◌, if◌then◌else◌, all}
use forever.Bytes.{Bytes, le_bytes}
use forever.Text.{is_ascii}
use forever.Protocol.Error.{Result, err, ◌>>=◌, invalid_private_message, invalid_room_message}
use forever.Protocol.Codes.{
  login_code, set_wait_port_code, get_peer_address_code, watch_user_code, unwatch_user_code,
  say_chatroom_code, join_room_code, leave_room_code, connect_to_peer_code, message_user_code,
  message_acked_code, file_search_code, wishlist_search_code, set_status_code, server_ping_code,
  shared_counts_code, user_stats_code, user_interests_code, room_list_code, have_no_parent_code,
  accept_children_code, send_upload_speed_code, branch_level_code, branch_root_code,
  cant_connect_to_peer_code, experimental_major_version, forever_minor_version,
  max_network_username_bytes, max_private_message_bytes, max_room_name_bytes,
  max_room_message_bytes,
}
use forever.Protocol.Writer.{push_u32, push_string}
use forever.Protocol.Framing.{encode_message}
use forever.Protocol.Fields.{empty_or_over}
use forever.Protocol.Reader.Reads.{bool_byte}

-- The frames whose payload is one string, and those with a token before it.
unfoldable string_frame : ℕ → Bytes → Result Bytes
string_frame code text = do payload ← push_string [] text; encode_message code payload

unfoldable pub token_string_frame : ℕ → ℕ → Bytes → Result Bytes
token_string_frame code token text = do
  payload ← push_string (push_u32 [] token) text
  encode_message code payload

-- `md5_hex` is `format!("{:x}", md5::compute(…))` of the crate md5.
unfoldable login_frame : (Bytes → Bytes) → Bytes → Bytes → Result Bytes
login_frame md5_hex username password = do
  payload ← push_string [] username
  payload ← push_string payload password
  let payload = push_u32 payload experimental_major_version
  payload ← push_string payload (md5_hex (username ++ password))
  encode_message login_code (push_u32 payload forever_minor_version)

-- A `u16` widened to a `u32`.
unfoldable set_wait_port_frame : ℕ → Result Bytes
set_wait_port_frame port = encode_message set_wait_port_code (le_bytes 4 port)

unfoldable watch_user_frame : Bytes → Result Bytes
unfolding string_frame
watch_user_frame = string_frame watch_user_code

unfoldable unwatch_user_frame : Bytes → Result Bytes
unfolding string_frame
unwatch_user_frame = string_frame unwatch_user_code

unfoldable user_stats_frame : Bytes → Result Bytes
unfolding string_frame
user_stats_frame = string_frame user_stats_code

unfoldable send_upload_speed_frame : ℕ → Result Bytes
send_upload_speed_frame speed = encode_message send_upload_speed_code (le_bytes 4 speed)

unfoldable user_interests_frame : Bytes → Result Bytes
unfolding string_frame
user_interests_frame = string_frame user_interests_code

unfoldable message_user_frame : Bytes → Bytes → Result Bytes
message_user_frame username message =
    if empty_or_over max_network_username_bytes username
      || empty_or_over max_private_message_bytes message
    then err invalid_private_message
    else do
      payload ← push_string [] username
      payload ← push_string payload message
      encode_message message_user_code payload

unfoldable message_acked_frame : ℕ → Result Bytes
message_acked_frame id = encode_message message_acked_code (le_bytes 4 id)

unfoldable room_list_frame : Result Bytes
room_list_frame = encode_message room_list_code []

unfoldable join_room_frame : Bytes → Result Bytes
join_room_frame room = do
  payload ← push_string [] room
  encode_message join_room_code (push_u32 payload 0)

unfoldable leave_room_frame : Bytes → Result Bytes
unfolding string_frame
leave_room_frame = string_frame leave_room_code

unfoldable say_chatroom_frame : Bytes → Bytes → Result Bytes
say_chatroom_frame room message =
    if empty_or_over max_room_name_bytes room
      || (not (all is_ascii room) || empty_or_over max_room_message_bytes message)
    then err invalid_room_message
    else do
      payload ← push_string [] room
      payload ← push_string payload message
      encode_message say_chatroom_code payload

unfoldable have_no_parent_frame : Bool → Result Bytes
have_no_parent_frame b = encode_message have_no_parent_code (bool_byte b ∷ [])

unfoldable accept_children_frame : Bool → Result Bytes
accept_children_frame b = encode_message accept_children_code (bool_byte b ∷ [])

unfoldable branch_level_frame : ℕ → Result Bytes
branch_level_frame level = encode_message branch_level_code (le_bytes 4 level)

unfoldable branch_root_frame : Bytes → Result Bytes
unfolding string_frame
branch_root_frame = string_frame branch_root_code

unfoldable file_search_frame : ℕ → Bytes → Result Bytes
unfolding token_string_frame
file_search_frame = token_string_frame file_search_code

unfoldable wishlist_search_frame : ℕ → Bytes → Result Bytes
unfolding token_string_frame
wishlist_search_frame = token_string_frame wishlist_search_code

unfoldable get_peer_address_frame : Bytes → Result Bytes
unfolding string_frame
get_peer_address_frame = string_frame get_peer_address_code

unfoldable connect_to_peer_frame : ℕ → Bytes → Bytes → Result Bytes
connect_to_peer_frame token username connection_type = do
  payload ← push_string (push_u32 [] token) username
  payload ← push_string payload connection_type
  encode_message connect_to_peer_code payload

unfoldable pub cant_connect_to_peer_frame : ℕ → Bytes → Result Bytes
unfolding token_string_frame
cant_connect_to_peer_frame = token_string_frame cant_connect_to_peer_code

-- `2_i32.to_le_bytes()`
unfoldable set_online_frame : Result Bytes
set_online_frame = encode_message set_status_code (le_bytes 4 2)

unfoldable shared_counts_frame : ℕ → ℕ → Result Bytes
shared_counts_frame directories files =
    encode_message shared_counts_code (push_u32 (push_u32 [] directories) files)

unfoldable server_ping_frame : Result Bytes
server_ping_frame = encode_message server_ping_code []
