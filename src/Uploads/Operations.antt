-- ===== src/Uploads/Operations.antt =====
-- The operations of `UploadHub` that change the queue. Each has the time and what the file system
-- does as arguments, and returns its result with the new state.
use forever.Prelude.{
  ℕ, ◌+◌, ◌%◌, ◌^◌, Bool, true, false, not, ◌&&◌, ◌||◌, Option, none, some, List, [], ◌∷◌, ◌++◌,
  leb, ltb, ◌==◌, if◌then◌else◌, any, find, update_at, update_first, get_elem?, length, is_empty,
}
use forever.Bytes.{Bytes, bytes_eq}
use forever.Text.Trim.{trim}
use forever.Uploads.Types.{
  UploadStatus, UploadSnapshot, UploadTicket, UploadQueueSnapshot, IndexedFile, UploadError, Answer,
  ok, err, is_connecting, eq_ignore_ascii_case,
}
use forever.UploadPolicy.{take_next}
use forever.Uploads.Hub.{
  UploadHub, Saving, max_upload_queue, count, is_active, is_pending, is_request, snapshot,
  ticket_from, check_user_limits, refresh_queue_positions, persist, take_transfer_token, upload_id,
}

-- `token == Some(value)`
abbrev pub has_token : Option ℕ → ℕ → Bool
has_token none value = false
has_token (some token) value = token == value

-- The upload that `enqueue` pushes.
unfoldable pub new_upload : Bytes → Bytes → IndexedFile → ℕ → UploadSnapshot
new_upload id username file now = record {
  id = id;
  username = username;
  remote_filename = file.remote_filename;
  filename = file.filename;
  size_bytes = file.size_bytes;
  transferred_bytes = 0;
  speed_bytes_per_second = 0;
  eta_seconds = none;
  status = UploadStatus.queued;
  queue_position = none;
  error = none;
  created_at_ms = now;
  updated_at_ms = now;
  local_path = file.local_path;
  connection_token = none;
  file_connection_token = none;
  transfer_token = none;
  control_claimed = false;
  file_claimed = false;
}

-- `Vec::pop`
abbrev pub drop_last : List UploadSnapshot → List UploadSnapshot
drop_last [] = []
drop_last (u ∷ []) = []
drop_last (u ∷ (v ∷ us)) = u ∷ drop_last (v ∷ us)

unfoldable pub after_save : UploadHub → Saving → Answer UploadQueueSnapshot × UploadHub
after_save hub none = (ok (snapshot hub), hub)
after_save hub (some e) = (
  err (UploadError.io e),
  refresh_queue_positions (record hub { uploads = drop_last hub.uploads }),
)

unfoldable pub push_upload :
    UploadHub → Bytes → IndexedFile → ℕ → Saving → Answer UploadQueueSnapshot × UploadHub
unfolding new_upload after_save
push_upload hub username file now saving =
    let new = new_upload (upload_id now hub.next_id) username file now in
    let hub' = record hub {
      uploads = hub.uploads ++ new ∷ [];
      next_id = (hub.next_id + 1) % 2 ^ 64;
    } in
    after_save (persist (refresh_queue_positions hub') saving) saving

-- What stands in the way of a new upload: an invalid request, a full queue, the user's limits.
unfoldable pub refusal : UploadHub → Bytes → ℕ → Option UploadError
refusal hub username size =
    if leb max_upload_queue (count is_pending hub.uploads)
    then some UploadError.queue_full
    else check_user_limits hub.uploads username size hub.scheduler.policy

unfoldable pub enqueue :
    UploadHub → Bytes → IndexedFile → ℕ → Saving → Answer UploadQueueSnapshot × UploadHub
unfolding push_upload refusal
enqueue hub username file now saving =
    if is_empty (trim username) || ltb 100 (length username)
    then (err UploadError.invalid_peer, hub)
    else if is_empty file.remote_filename || ltb 32768 (length file.remote_filename)
    then (err UploadError.changed_file, hub)
    else if any (is_request username file.remote_filename) hub.uploads
    then (ok (snapshot hub), hub)
    else elim (refusal hub username file.size_bytes) [
      | some e ↦ (err e, hub)
      | none ↦ push_upload hub username file now saving
    ]

unfoldable pub queue_position : UploadHub → Bytes → Bytes → Option ℕ
queue_position hub username remote_filename =
    elim (find (is_request username remote_filename) hub.uploads) [
      | none ↦ none
      | some u ↦ elim u.queue_position [ none ↦ some 0 | some n ↦ some n ]
    ]

unfoldable pub activated : ℕ → ℕ → ℕ → UploadSnapshot → UploadSnapshot
activated connection_token transfer_token now u = record u {
  status = UploadStatus.connecting;
  connection_token = some connection_token;
  transfer_token = some transfer_token;
  control_claimed = false;
  file_claimed = false;
  queue_position = none;
  error = none;
  updated_at_ms = now;
}

-- The end of `activate_next`: the ticket, or all as it was if the queue could not be saved.
unfoldable pub after_activation :
    UploadHub
    → ℕ
    → UploadSnapshot
    → List Bytes
    → UploadTicket
    → Saving
    → Option UploadTicket × UploadHub
after_activation hub i previous previous_turn ticket none = (some ticket, hub)
after_activation hub i previous previous_turn ticket (some e) = (
  none,
  refresh_queue_positions (record hub {
    uploads = update_at hub.uploads i (λ u. previous);
    scheduler = record hub.scheduler { served = previous_turn };
  }),
)

unfoldable pub activate :
    UploadHub → List Bytes → ℕ → UploadSnapshot → ℕ → ℕ → Saving → Option UploadTicket × UploadHub
unfolding activated after_activation
activate hub previous_turn i previous connection_token now saving =
    let (transfer_token, hub') = take_transfer_token hub in
    let upload = activated connection_token transfer_token now previous in
    let hub'' = record hub' { uploads = update_at hub'.uploads i (λ u. upload) } in
    after_activation (persist (refresh_queue_positions hub'') saving) i previous previous_turn
      (ticket_from upload connection_token transfer_token) saving

unfoldable pub activate_at :
    UploadHub → List Bytes → Option ℕ → ℕ → ℕ → Saving → Option UploadTicket × UploadHub
unfolding activate
activate_at hub previous_turn none connection_token now saving = (none, hub)
activate_at hub previous_turn (some i) connection_token now saving =
    elim (get_elem? hub.uploads i) [
      | none ↦ (none, hub)
      | some previous ↦ activate hub previous_turn i previous connection_token now saving
    ]

unfoldable pub activate_next : UploadHub → ℕ → ℕ → ℕ → Saving → Option UploadTicket × UploadHub
unfolding activate_at
activate_next hub connection_token slots now saving =
    if leb slots (count is_active hub.uploads)
    then (none, hub)
    else let next = take_next hub.scheduler hub.uploads in
      activate_at (record hub { scheduler = next.1 }) hub.scheduler.served next.0 connection_token
        now saving

-- `Some(ticket_from(upload, connection?, transfer?))`
unfoldable pub ticket_of : UploadSnapshot → Option ℕ → Option UploadTicket
ticket_of u none = none
ticket_of u (some connection_token) = elim u.transfer_token [
  | none ↦ none
  | some transfer_token ↦ some (ticket_from u connection_token transfer_token)
]

-- The uploads that wait for a connection: to control it, and for its file.
abbrev pub wants_control : UploadSnapshot → Bool
wants_control u = is_connecting u.status && not u.control_claimed

abbrev pub wants_file : UploadSnapshot → Bool
wants_file u = is_connecting u.status && not u.file_claimed

abbrev pub is_some : Option ℕ → Bool
is_some none = false
is_some (some n) = true

unfoldable pub requesting_control_for_username : UploadHub → Bytes → Option UploadTicket
requesting_control_for_username hub username =
    elim (find
      (λ u.
        wants_control u
        && (not (is_some u.file_connection_token) && eq_ignore_ascii_case u.username username))
      hub.uploads) [ none ↦ none | some u ↦ ticket_of u u.connection_token ]

unfoldable pub requesting_file_for_username : UploadHub → Bytes → Option UploadTicket
requesting_file_for_username hub username =
    elim (find
      (λ u.
        wants_file u
        && (is_some u.file_connection_token && eq_ignore_ascii_case u.username username))
      hub.uploads) [ none ↦ none | some u ↦ ticket_of u u.file_connection_token ]

-- The first upload that passes the test is changed, and its ticket returned.
unfoldable pub change_first :
    (UploadSnapshot → Bool)
    → (UploadSnapshot → UploadSnapshot)
    → ℕ
    → UploadHub
    → Option UploadTicket × UploadHub
change_first p f connection_token hub = elim (find p hub.uploads) [
  | none ↦ (none, hub)
  | some u ↦ (
    ticket_of (f u) (some connection_token),
    record hub { uploads = update_first p f hub.uploads },
  )
]

unfoldable pub claim_control : UploadHub → ℕ → ℕ → Option UploadTicket × UploadHub
unfolding change_first
claim_control hub connection_token now =
    change_first (λ u. wants_control u && has_token u.connection_token connection_token)
      (λ u. record u { control_claimed = true; updated_at_ms = now }) connection_token hub

unfoldable pub prepare_file_connection : UploadHub → Bytes → ℕ → ℕ → Option UploadTicket × UploadHub
unfolding change_first
prepare_file_connection hub id connection_token now =
    change_first (λ u. bytes_eq u.id id && is_connecting u.status)
      (λ u. record u {
        file_connection_token = some connection_token;
        file_claimed = false;
        updated_at_ms = now;
      })
      connection_token hub

unfoldable pub claim_file : UploadHub → ℕ → ℕ → Option UploadTicket × UploadHub
unfolding change_first
claim_file hub connection_token now =
    change_first (λ u. wants_file u && has_token u.file_connection_token connection_token)
      (λ u. record u { file_claimed = true; updated_at_ms = now }) connection_token hub
