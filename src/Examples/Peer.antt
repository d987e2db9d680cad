-- ===== src/Examples/Peer.antt =====
-- Small frames between peers: names of one to three letters.
use forever.Prelude.{◌≡◌, refl, [], ◌∷◌, ◌++◌, false, some, arith}
use forever.Bytes.{Bytes}
use forever.Text.{replace_slashes}
use forever.Text.Utf8.{is_utf8, IsText}
use forever.Protocol.Error.{ok, ◌>>=◌}
use forever.Protocol.Codes.{queue_upload_code}
use forever.Protocol.Types.{peer, pierce_firewall}
use forever.Protocol.Framing.{encode_message, read_frame_with_limit, read_peer_frame}
use forever.Protocol.Framing.RoundTrip.{read_frame_with_limit-encode_message}
use forever.Protocol.Framing.Delivery.{delivered}
use forever.Protocol.Outgoing.Peer.{
  peer_init_frame, pierce_firewall_frame, queue_upload_frame, transfer_request_frame,
  transfer_response_frame, place_in_queue_response_frame, upload_denied_frame,
  folder_contents_request_frame, reason_or_cancelled,
}
use forever.Protocol.Peer.{
  read_peer_init, parse_filename, parse_transfer_request, parse_transfer_response,
  parse_queue_position, parse_upload_denied, parse_folder_contents_request,
}
use forever.Protocol.Peer.Init.{
  read_peer_init-peer_init_frame, read_peer_init-pierce_firewall_frame,
}
use forever.Protocol.Peer.RoundTrip.{
  parse_filename-queue_upload_frame, parse_transfer_request-transfer_request_frame,
  parse_transfer_response-transfer_response_frame,
  parse_queue_position-place_in_queue_response_frame, parse_upload_denied-upload_denied_frame,
  parse_folder_contents_request-folder_contents_request_frame,
}

abbrev name : Bytes
name = b'a' ∷ b'n' ∷ b'n' ∷ []

abbrev path : Bytes
path = b'a' ∷ b'/' ∷ b'b' ∷ []

abbrev kind : Bytes
kind = b'P' ∷ []

kind-IsText : IsText kind
unfolding is_utf8
kind-IsText = refl

name-IsText : IsText name
unfolding is_utf8
name-IsText = refl

path-IsText : IsText path
unfolding is_utf8
path-IsText = refl

read_frame_with_limit-encode_message_example :
    (encode_message 40 path >>= λ frame. read_frame_with_limit 64 (frame ++ name))
    ≡ ok (record { code = 40; payload = path }, name)
read_frame_with_limit-encode_message_example =
    read_frame_with_limit-encode_message 64 40 path name (omega arith) (omega arith) (omega arith)

read_peer_init-peer_init_frame_example :
    (peer_init_frame name kind >>= λ bytes. read_peer_init (bytes ++ path))
    ≡ ok (peer name kind 0, path)
read_peer_init-peer_init_frame_example =
    read_peer_init-peer_init_frame name kind path name-IsText kind-IsText (omega arith)

read_peer_init-pierce_firewall_frame_example :
    read_peer_init (pierce_firewall_frame 70_000 ++ name) ≡ ok (pierce_firewall 70_000, name)
read_peer_init-pierce_firewall_frame_example =
    read_peer_init-pierce_firewall_frame 70_000 name (omega arith)

parse_filename-queue_upload_frame_example :
    delivered read_peer_frame
      (λ frame. parse_filename frame queue_upload_code)
      (queue_upload_frame path)
      name
    ≡ ok (replace_slashes path, name)
parse_filename-queue_upload_frame_example =
    parse_filename-queue_upload_frame path name path-IsText (omega arith)

parse_transfer_request-transfer_request_frame_example :
    delivered read_peer_frame parse_transfer_request
      (transfer_request_frame 9 path 5_000_000_000)
      []
    ≡ ok (
      record {
        direction = 1;
        token = 9;
        filename = replace_slashes path;
        size_bytes = some 5_000_000_000;
      },
      [],
    )
parse_transfer_request-transfer_request_frame_example =
    parse_transfer_request-transfer_request_frame 9 path 5_000_000_000 [] (omega arith)
      (omega arith) path-IsText (omega arith)

parse_transfer_response-transfer_response_frame_example :
    delivered read_peer_frame parse_transfer_response
      (transfer_response_frame 9 false (some name))
      path
    ≡ ok ((9, false, some name), path)
unfolding reason_or_cancelled
parse_transfer_response-transfer_response_frame_example =
    parse_transfer_response-transfer_response_frame 9 false (some name) path (omega arith)
      name-IsText (omega arith)

parse_queue_position-place_in_queue_response_frame_example :
    delivered read_peer_frame parse_queue_position (place_in_queue_response_frame path 300) []
    ≡ ok ((replace_slashes path, 300), [])
parse_queue_position-place_in_queue_response_frame_example =
    parse_queue_position-place_in_queue_response_frame path 300 [] (omega arith) path-IsText
      (omega arith)

parse_upload_denied-upload_denied_frame_example :
    delivered read_peer_frame parse_upload_denied (upload_denied_frame path name) name
    ≡ ok ((replace_slashes path, name), name)
parse_upload_denied-upload_denied_frame_example =
    parse_upload_denied-upload_denied_frame path name name path-IsText name-IsText (omega arith)

parse_folder_contents_request-folder_contents_request_frame_example :
    delivered read_peer_frame parse_folder_contents_request
      (folder_contents_request_frame 7 path)
      []
    ≡ ok ((7, replace_slashes path), [])
parse_folder_contents_request-folder_contents_request_frame_example =
    parse_folder_contents_request-folder_contents_request_frame 7 path [] (omega arith) path-IsText
      (omega arith)
