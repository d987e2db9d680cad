-- ===== src/Protocol/Peer/RoundTrip.antt =====
-- The frames that peers exchange about transfers, from the one that writes to the one that parses.
use forever.Prelude.{
  ℕ, ◌+◌, ◌≤◌, ◌<◌, ◌^◌, ◌≡◌, refl, Bool, true, false, Option, none, some, [], ◌∷◌, ◌++◌, length,
  arith, ap, append_assoc, append-nil,
}
use forever.Bytes.{Bytes, le_bytes}
use forever.Text.{replace_slashes}
use forever.Text.Utf8.{IsText}
use forever.Protocol.Error.{ok}
use forever.Protocol.Codes.{
  queue_upload_code, transfer_request_code, transfer_response_code, place_in_queue_response_code,
  upload_denied_code, folder_contents_request_code, max_peer_message_length,
}
use forever.Protocol.Writer.{push_u32, push_u64}
use forever.Protocol.Writer.Layout.{
  string_bytes, length-string_bytes, push_string_lem, payload_sizes,
}
use forever.Protocol.Reader.{read_if}
use forever.Protocol.Reader.Reads.{
  Reads, Ends, Reads-pure, Reads-bind_pure, Reads-Ends, Ends-bind, Ends-pure, Reads-read_u32,
  Reads-read_u64, Reads-read_bool, Reads-read_string_lossy,
}
use forever.Protocol.Framing.{read_peer_frame, encode_message}
use forever.Protocol.Framing.Delivery.{delivered, deliver}
use forever.Protocol.Outgoing.Peer.{
  queue_upload_frame, transfer_request_frame, transfer_response_frame, push_reason,
  reason_or_cancelled, place_in_queue_response_frame, upload_denied_frame,
  folder_contents_request_frame,
}
use forever.Protocol.Peer.{
  read_path, read_size, read_reason, parse_filename, parse_transfer_request, transfer_response,
  parse_transfer_response, parse_queue_position, parse_upload_denied, parse_folder_contents_request,
}

pub Reads-read_path :
    (s : Bytes)
    → length s < 2 ^ 32
    → IsText s
    → Reads read_path (string_bytes s) (replace_slashes s)
unfolding read_path
Reads-read_path s h utf8 = Reads-bind_pure replace_slashes (Reads-read_string_lossy s h utf8)

-- A request to queue an upload reaches the peer with the name that was asked for, its slashes
-- turned into backslashes, if the name is UTF-8 and within the limit.
pub parse_filename-queue_upload_frame :
    (filename rest : Bytes)
    → IsText filename
    → length filename + 8 ≤ max_peer_message_length
    → delivered read_peer_frame
        (λ frame. parse_filename frame queue_upload_code)
        (queue_upload_frame filename)
        rest
      ≡ ok (replace_slashes filename, rest)
unfolding parse_filename queue_upload_frame read_peer_frame
parse_filename-queue_upload_frame filename rest utf8 fits =
    rw (push_string_lem [] filename (omega arith)) (
      deliver max_peer_message_length queue_upload_code (string_bytes filename) read_path
        (replace_slashes filename) rest (omega arith) (omega (arith, length-string_bytes filename))
        (omega (arith, length-string_bytes filename))
        (Reads-Ends (Reads-read_path filename (omega arith) utf8)))

Reads-read_size : (v : ℕ) → v < 2 ^ 64 → Reads read_size (le_bytes 8 v) (some v)
unfolding read_size
Reads-read_size v h = Reads-bind_pure some (Reads-read_u64 v h)

-- The payload of `transfer_request_frame`, in the order in which it is read.
abbrev transfer_layout : ℕ → Bytes → ℕ → Bytes
transfer_layout token filename size_bytes =
    le_bytes 4 1 ++ (le_bytes 4 token ++ (string_bytes filename ++ (le_bytes 8 size_bytes ++ [])))

transfer_request_frame_lem :
    (token : ℕ) (filename : Bytes) (size_bytes : ℕ)
    → length filename < 2 ^ 32
    → transfer_request_frame token filename size_bytes
      ≡ encode_message transfer_request_code (transfer_layout token filename size_bytes)
unfolding transfer_request_frame push_u32 push_u64
transfer_request_frame_lem token filename size_bytes h =
    rw (push_string_lem (le_bytes 4 1 ++ le_bytes 4 token) filename h)
      (ap (encode_message transfer_request_code) (simp (append_assoc, append-nil)))

-- A peer that is offered a file reads the direction 1, the token, the name with backslashes for
-- slashes and the size that were sent, if the name is UTF-8 and within the limit and the numbers
-- fit their words.
pub parse_transfer_request-transfer_request_frame :
    (token : ℕ) (filename : Bytes) (size_bytes : ℕ) (rest : Bytes)
    → token < 2 ^ 32
    → size_bytes < 2 ^ 64
    → IsText filename
    → length filename + 24 ≤ max_peer_message_length
    → delivered read_peer_frame parse_transfer_request
        (transfer_request_frame token filename size_bytes)
        rest
      ≡ ok (
        record {
          direction = 1;
          token = token;
          filename = replace_slashes filename;
          size_bytes = some size_bytes;
        },
        rest,
      )
unfolding parse_transfer_request read_peer_frame read_if
parse_transfer_request-transfer_request_frame token filename size_bytes rest ht hs utf8 fits =
    let small : length filename < 2 ^ 32 = omega arith in
    let h1 : 1 < 2 ^ 32 = omega arith in
    let size : 4 + length (transfer_layout token filename size_bytes) ≡ length filename + 24 =
      omega payload_sizes in
    rw (transfer_request_frame_lem token filename size_bytes small) (
      deliver max_peer_message_length transfer_request_code
        (transfer_layout token filename size_bytes) _ _ rest (omega arith) (omega arith)
        (omega arith)
        (Ends-bind _ (Reads-read_u32 1 h1) (
          Ends-bind _ (Reads-read_u32 token ht) (
            Ends-bind _ (Reads-read_path filename small utf8)
              (Ends-bind _ (Reads-read_size size_bytes hs) (Ends-pure _))))))

-- The payload of `transfer_response_frame`: the reason only stands in a refusal.
abbrev response_layout : ℕ → Bool → Option Bytes → Bytes
response_layout token true reason = le_bytes 4 token ++ (1 ∷ [])
response_layout token false reason =
    le_bytes 4 token ++ (0 ∷ (string_bytes (reason_or_cancelled reason) ++ []))

abbrev answered : Bool → Option Bytes → Option Bytes
answered true reason = none
answered false reason = some (reason_or_cancelled reason)

transfer_response_frame_lem :
    (token : ℕ) (allowed : Bool) (reason : Option Bytes)
    → length (reason_or_cancelled reason) < 2 ^ 32
    → transfer_response_frame token allowed reason
      ≡ encode_message transfer_response_code (response_layout token allowed reason)
unfolding transfer_response_frame push_u32 push_reason
transfer_response_frame_lem token true reason h = refl
transfer_response_frame_lem token false reason h =
    rw (push_string_lem (le_bytes 4 token ++ 0 ∷ []) (reason_or_cancelled reason) h)
      (ap (encode_message transfer_response_code) (simp (append_assoc, append-nil)))

Reads-read_reason :
    (s : Bytes) → length s < 2 ^ 32 → IsText s → Reads read_reason (string_bytes s) (some s)
unfolding read_reason
Reads-read_reason s h utf8 = Reads-bind_pure some (Reads-read_string_lossy s h utf8)

response_body :
    (token : ℕ) (allowed : Bool) (reason : Option Bytes)
    → token < 2 ^ 32
    → IsText (reason_or_cancelled reason)
    → length (reason_or_cancelled reason) < 2 ^ 32
    → Ends transfer_response
        (response_layout token allowed reason)
        (token, allowed, answered allowed reason)
unfolding transfer_response read_if
response_body token true reason ht utf8 h =
    Ends-bind _ (Reads-read_u32 token ht)
      (Ends-bind _ (Reads-read_bool true) (Ends-bind _ (Reads-pure none) (Ends-pure _)))
response_body token false reason ht utf8 h =
    Ends-bind _ (Reads-read_u32 token ht)
      (Ends-bind _ (Reads-read_bool false) (Ends-bind _ (Reads-read_reason _ h utf8) (Ends-pure _)))

response_size :
    (token : ℕ) (allowed : Bool) (reason : Option Bytes)
    → length (response_layout token allowed reason) ≤ length (reason_or_cancelled reason) + 9
response_size token true reason = omega payload_sizes
response_size token false reason = omega payload_sizes

-- The answer to an offer arrives: a consent without a reason, a refusal with the reason that was
-- given, or "Cancelled" if none was, for a 32-bit token and a reason that is UTF-8 and within the
-- limit.
pub parse_transfer_response-transfer_response_frame :
    (token : ℕ) (allowed : Bool) (reason : Option Bytes) (rest : Bytes)
    → token < 2 ^ 32
    → IsText (reason_or_cancelled reason)
    → length (reason_or_cancelled reason) + 13 ≤ max_peer_message_length
    → delivered read_peer_frame parse_transfer_response
        (transfer_response_frame token allowed reason)
        rest
      ≡ ok ((token, allowed, answered allowed reason), rest)
unfolding parse_transfer_response read_peer_frame
parse_transfer_response-transfer_response_frame token allowed reason rest ht utf8 fits =
    let small : length (reason_or_cancelled reason) < 2 ^ 32 = omega arith in
    let size : length (response_layout token allowed reason)
        ≤ length (reason_or_cancelled reason) + 9 =
      response_size token allowed reason in
    rw (transfer_response_frame_lem token allowed reason small) (
      deliver max_peer_message_length transfer_response_code (response_layout token allowed reason)
        _ _ rest (omega arith) (omega arith) (omega arith)
        (response_body token allowed reason ht utf8 small))

-- The place in the queue, a 32-bit number, arrives with the name that it is about, its slashes
-- turned into backslashes, if the name is UTF-8 and within the limit.
pub parse_queue_position-place_in_queue_response_frame :
    (filename : Bytes) (position : ℕ) (rest : Bytes)
    → position < 2 ^ 32
    → IsText filename
    → length filename + 12 ≤ max_peer_message_length
    → delivered read_peer_frame parse_queue_position
        (place_in_queue_response_frame filename position)
        rest
      ≡ ok ((replace_slashes filename, position), rest)
unfolding parse_queue_position read_peer_frame place_in_queue_response_frame push_u32
parse_queue_position-place_in_queue_response_frame filename position rest hp utf8 fits =
    let small : length filename < 2 ^ 32 = omega arith in
    let size : length (string_bytes filename ++ le_bytes 4 position) ≡ length filename + 8 =
      omega payload_sizes in
    rw (push_string_lem [] filename small) (
      deliver max_peer_message_length place_in_queue_response_code
        (string_bytes filename ++ le_bytes 4 position) _ _ rest (omega arith) (omega arith)
        (omega arith)
        (Ends-bind _ (Reads-read_path filename small utf8)
          (Reads-Ends (Reads-bind_pure _ (Reads-read_u32 position hp)))))

-- A refusal to upload arrives with the name, its slashes turned into backslashes, and the reason,
-- if both are UTF-8 and together within the limit.
pub parse_upload_denied-upload_denied_frame :
    (filename reason rest : Bytes)
    → IsText filename
    → IsText reason
    → length filename + length reason + 12 ≤ max_peer_message_length
    → delivered read_peer_frame parse_upload_denied (upload_denied_frame filename reason) rest
      ≡ ok ((replace_slashes filename, reason), rest)
unfolding parse_upload_denied read_peer_frame upload_denied_frame
parse_upload_denied-upload_denied_frame filename reason rest utf8 utf8' fits =
    let small : length filename < 2 ^ 32 = omega arith in
    let small' : length reason < 2 ^ 32 = omega arith in
    let size : length (string_bytes filename ++ string_bytes reason)
        ≡ length filename + length reason + 8 =
      omega payload_sizes in
    rw (push_string_lem [] filename small, push_string_lem (string_bytes filename) reason small')
      (deliver max_peer_message_length upload_denied_code
        (string_bytes filename ++ string_bytes reason) _ _ rest (omega arith) (omega arith)
        (omega arith)
        (Ends-bind _ (Reads-read_path filename small utf8)
          (Reads-Ends (Reads-bind_pure _ (Reads-read_string_lossy reason small' utf8')))))

-- A request for a folder's files arrives with its 32-bit token and the folder's name, its slashes
-- turned into backslashes, if the name is UTF-8 and within the limit.
pub parse_folder_contents_request-folder_contents_request_frame :
    (token : ℕ) (folder rest : Bytes)
    → token < 2 ^ 32
    → IsText folder
    → length folder + 12 ≤ max_peer_message_length
    → delivered read_peer_frame parse_folder_contents_request
        (folder_contents_request_frame token folder)
        rest
      ≡ ok ((token, replace_slashes folder), rest)
unfolding parse_folder_contents_request read_peer_frame folder_contents_request_frame push_u32
parse_folder_contents_request-folder_contents_request_frame token folder rest ht utf8 fits =
    let small : length folder < 2 ^ 32 = omega arith in
    let size : length (le_bytes 4 token ++ string_bytes folder) ≡ length folder + 8 =
      omega payload_sizes in
    rw (push_string_lem (le_bytes 4 token) folder small) (
      deliver max_peer_message_length folder_contents_request_code
        (le_bytes 4 token ++ string_bytes folder) _ _ rest (omega arith) (omega arith) (omega arith)
        (Ends-bind _ (Reads-read_u32 token ht)
          (Reads-Ends (Reads-bind_pure _ (Reads-read_path folder small utf8)))))
