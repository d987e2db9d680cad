-- ===== src/Protocol/Outgoing/Peer.antt =====
-- The frames that protocol.rs writes to a peer, but the compressed lists.
use forever.Prelude.{
  ℕ, ◌+◌, Bool, true, false, Option, none, some, ◌||◌, [], ◌∷◌, ◌++◌, ltb, if◌then◌else◌, length,
}
use forever.Bytes.{Bytes}
use forever.Protocol.Error.{Result, ok, err, panicked, ◌>>=◌, invalid_user_info}
use forever.Protocol.Codes.{
  shared_file_list_request_code, user_info_request_code, user_info_response_code,
  folder_contents_request_code, queue_upload_code, place_in_queue_request_code,
  transfer_response_code, transfer_request_code, place_in_queue_response_code, upload_denied_code,
  max_profile_description_bytes, max_profile_picture_bytes,
}
use forever.Protocol.Writer.{push_u32, push_u64, push_string, checked_count, u32_range}
use forever.Protocol.Framing.{encode_message}
use forever.Protocol.Reader.Reads.{bool_byte}

unfoldable pub shared_file_list_request_frame : Result Bytes
shared_file_list_request_frame = encode_message shared_file_list_request_code []

unfoldable pub user_info_request_frame : Result Bytes
user_info_request_frame = encode_message user_info_request_code []

-- The flag, and the picture with its length.
unfoldable pub push_picture : Bytes → Option Bytes → Result Bytes
push_picture payload none = ok (payload ++ 0 ∷ [])
push_picture payload (some picture) = do
  count ← checked_count (length picture)
  ok (push_u32 (payload ++ 1 ∷ []) count ++ picture)

unfoldable pub picture_over : Option Bytes → Bool
picture_over none = false
picture_over (some picture) = ltb max_profile_picture_bytes (length picture)

unfoldable pub user_info_response_frame : Bytes → Option Bytes → ℕ → ℕ → Bool → ℕ → Result Bytes
unfolding push_picture picture_over
user_info_response_frame description picture upload_slots queue_size slots_free permission =
    if ltb max_profile_description_bytes (length description) || picture_over picture
    then err invalid_user_info
    else do
      payload ← push_string [] description
      payload ← push_picture payload picture
      let payload = push_u32 (push_u32 payload upload_slots) queue_size
      let payload = payload ++ bool_byte slots_free ∷ []
      encode_message user_info_response_code (push_u32 payload permission)

unfoldable pub folder_contents_request_frame : ℕ → Bytes → Result Bytes
folder_contents_request_frame token folder = do
  payload ← push_string (push_u32 [] token) folder
  encode_message folder_contents_request_code payload

-- A `PeerInit` has a code of one byte. The length is put into a u32 by `expect`.
unfoldable pub framed_init : Bytes → Result Bytes
framed_init payload =
    if ltb (length payload + 1) u32_range
    then ok (push_u32 [] (length payload + 1) ++ 1 ∷ payload)
    else panicked

unfoldable pub peer_init_frame : Bytes → Bytes → Result Bytes
unfolding framed_init
peer_init_frame username connection_type = do
  payload ← push_string [] username
  payload ← push_string payload connection_type
  framed_init (push_u32 payload 0)

unfoldable pub pierce_firewall_frame : ℕ → Bytes
pierce_firewall_frame token = push_u32 (push_u32 [] 5 ++ 0 ∷ []) token

unfoldable pub queue_upload_frame : Bytes → Result Bytes
queue_upload_frame filename = do
  payload ← push_string [] filename
  encode_message queue_upload_code payload

unfoldable pub place_in_queue_request_frame : Bytes → Result Bytes
place_in_queue_request_frame filename = do
  payload ← push_string [] filename
  encode_message place_in_queue_request_code payload

-- "Cancelled"
abbrev pub cancelled : Bytes
cancelled = b'C' ∷ b'a' ∷ b'n' ∷ b'c' ∷ b'e' ∷ b'l' ∷ b'l' ∷ b'e' ∷ b'd' ∷ []

unfoldable pub reason_or_cancelled : Option Bytes → Bytes
reason_or_cancelled (some reason) = reason
reason_or_cancelled none = cancelled

-- The reason is only written where the transfer is refused.
unfoldable pub push_reason : Bytes → Bool → Option Bytes → Result Bytes
unfolding reason_or_cancelled
push_reason payload true reason = ok payload
push_reason payload false reason = push_string payload (reason_or_cancelled reason)

unfoldable pub transfer_response_frame : ℕ → Bool → Option Bytes → Result Bytes
unfolding push_reason
transfer_response_frame token allowed reason = do
  payload ← push_reason (push_u32 [] token ++ bool_byte allowed ∷ []) allowed reason
  encode_message transfer_response_code payload

unfoldable pub transfer_request_frame : ℕ → Bytes → ℕ → Result Bytes
transfer_request_frame token filename size_bytes = do
  payload ← push_string (push_u32 (push_u32 [] 1) token) filename
  encode_message transfer_request_code (push_u64 payload size_bytes)

unfoldable pub place_in_queue_response_frame : Bytes → ℕ → Result Bytes
place_in_queue_response_frame filename position = do
  payload ← push_string [] filename
  encode_message place_in_queue_response_code (push_u32 payload position)

unfoldable pub upload_denied_frame : Bytes → Bytes → Result Bytes
upload_denied_frame filename reason = do
  payload ← push_string [] filename
  payload ← push_string payload reason
  encode_message upload_denied_code payload
