-- ===== src/Uploads/Transfers.antt =====
-- The operations of `UploadHub` on a transfer that runs, on its end, and on the whole queue.
use forever.Prelude.{
  ℕ, ◌+◌, ◌-◌, ◌/◌, min, Bool, true, false, not, ◌&&◌, ◌||◌, Option, none, some, ltb, ◌==◌,
  if◌then◌else◌, keep, find, update_first, ◌⊎◌, inl, inr,
}
use forever.Bytes.{Bytes, bytes_eq}
use forever.Uploads.Types.{
  UploadStatus, UploadSnapshot, UploadTicket, UploadQueueSnapshot, IndexedFile, UploadError, Answer,
  ok, err, finished, is_connecting, is_uploading, is_completed, is_cancelled,
}
use forever.Uploads.Hub.{
  UploadHub, Saving, snapshot, ticket_from, refresh_queue_positions, persist, abort,
}
use forever.Uploads.Operations.{has_token}

-- `fs::metadata`: an I/O error, or whether it is a file, and its length.
abbrev pub Metadata : Type 0
Metadata = Bytes ⊎ (Bool × ℕ)

-- An upload that was found changes as a function of itself, which may refuse.
abbrev pub Change : Type 0
Change = UploadSnapshot → Answer UploadTicket × UploadSnapshot

unfoldable pub started : UploadSnapshot → ℕ → Change
started found now u =
    let u' = record u {
      status = UploadStatus.uploading;
      speed_bytes_per_second = 0;
      eta_seconds = none;
      updated_at_ms = now;
    } in
    elim u.transfer_token [
      | none ↦ (err UploadError.not_found, u')
      | some token ↦
          (ok (ticket_from u' (elim u.file_connection_token [ none ↦ 0 | some t ↦ t ]) token), u')
    ]

unfoldable pub check_metadata : Metadata → ℕ → Change
unfolding started
check_metadata (inl e) now u = (err (UploadError.io e), u)
check_metadata (inr (is_file, size)) now u =
    if not is_file || not (size == u.size_bytes)
    then (err UploadError.changed_file, u)
    else started u now u

unfoldable pub open_file : ℕ → IndexedFile → (Bytes → Metadata) → ℕ → Change
unfolding check_metadata
open_file transfer_token file metadata now u =
    if not (has_token u.transfer_token transfer_token) || not (file.size_bytes == u.size_bytes)
    then (err UploadError.changed_file, u)
    else check_metadata (metadata file.local_path) now (record u { local_path = file.local_path })

unfoldable pub begin_file :
    UploadHub → Bytes → ℕ → IndexedFile → (Bytes → Metadata) → ℕ → Answer UploadTicket × UploadHub
unfolding open_file
begin_file hub id transfer_token file metadata now =
    let is_it = λ (u : UploadSnapshot). bytes_eq u.id id && is_connecting u.status in
    let change = open_file transfer_token file metadata now in
    elim (find is_it hub.uploads) [
      | none ↦ (err UploadError.not_found, hub)
      | some u ↦ (
        (change u).0,
        record hub { uploads = update_first is_it (λ u. (change u).1) hub.uploads },
      )
    ]

-- `n.div_ceil(speed)`, if there is a speed.
unfoldable pub eta : ℕ → ℕ → Option ℕ
eta left speed = if ltb 0 speed then some ((left + (speed - 1)) / speed) else none

unfoldable pub progressed : ℕ → ℕ → ℕ → ℕ → UploadSnapshot → UploadSnapshot
unfolding eta
progressed transfer_token transferred speed now u =
    let done = min transferred u.size_bytes in
    if is_uploading u.status && has_token u.transfer_token transfer_token
    then record u {
      transferred_bytes = done;
      speed_bytes_per_second = speed;
      eta_seconds = eta (u.size_bytes - done) speed;
      updated_at_ms = now;
    }
    else u

unfoldable pub update_progress : UploadHub → Bytes → ℕ → ℕ → ℕ → ℕ → UploadHub
unfolding progressed
update_progress hub id transfer_token transferred speed now = record hub {
  uploads =
      update_first (λ u. bytes_eq u.id id) (progressed transfer_token transferred speed now)
        hub.uploads;
}

-- The fields of an upload that ends.
unfoldable pub ended : UploadStatus → Option Bytes → ℕ → UploadSnapshot → UploadSnapshot
ended status error now u = record u {
  status = status;
  transferred_bytes = if is_completed status then u.size_bytes else u.transferred_bytes;
  eta_seconds = if is_completed status then some 0 else none;
  speed_bytes_per_second = 0;
  queue_position = none;
  error = error;
  connection_token = none;
  file_connection_token = none;
  transfer_token = none;
  updated_at_ms = now;
}

-- `transfer_token.is_some_and(|token| upload.transfer_token != Some(token))`
abbrev pub is_stale : Option ℕ → UploadSnapshot → Bool
is_stale none u = false
is_stale (some token) u = not (has_token u.transfer_token token)

unfoldable pub finish_found :
    UploadHub
    → UploadSnapshot
    → Bytes
    → UploadStatus
    → Option Bytes
    → Option ℕ
    → ℕ
    → Saving
    → Bool × UploadHub
unfolding ended
finish_found hub u id status error transfer_token now saving =
    let hub' = abort hub id in
    if is_stale transfer_token u
    then (false, hub)
    else if finished u.status && not (is_cancelled status)
    then (false, hub')
    else (
      true,
      persist
          (refresh_queue_positions (record hub' {
            uploads = update_first (λ u. bytes_eq u.id id) (ended status error now) hub.uploads;
          }))
          saving,
    )

unfoldable pub finish :
    UploadHub → Bytes → UploadStatus → Option Bytes → Option ℕ → ℕ → Saving → Bool × UploadHub
unfolding finish_found
finish hub id status error transfer_token now saving =
    elim (find (λ u. bytes_eq u.id id) hub.uploads) [
      | none ↦ (false, hub)
      | some u ↦ finish_found hub u id status error transfer_token now saving
    ]

unfoldable pub complete : UploadHub → Bytes → ℕ → ℕ → Saving → Bool × UploadHub
complete hub id transfer_token now saving =
    finish hub id UploadStatus.completed none (some transfer_token) now saving

unfoldable pub fail_attempt : UploadHub → Bytes → ℕ → Bytes → ℕ → Saving → Bool × UploadHub
fail_attempt hub id token message now saving =
    finish hub id UploadStatus.failed (some message) (some token) now saving

unfoldable pub fail_connection : UploadHub → ℕ → Bytes → ℕ → Saving → Bool × UploadHub
fail_connection hub connection_token message now saving =
    elim (find
      (λ u.
        is_connecting u.status
        && (has_token u.connection_token connection_token
            || has_token u.file_connection_token connection_token))
      hub.uploads) [
        | none ↦ (false, hub)
        | some u ↦ elim u.transfer_token [
          | none ↦ (false, hub)
          | some token ↦ fail_attempt hub u.id token message now saving
        ]
      ]

abbrev pub answer_of : Bool × UploadHub → Answer UploadQueueSnapshot × UploadHub
answer_of (true, hub) = (ok (snapshot hub), hub)
answer_of (false, hub) = (err UploadError.not_found, hub)

unfoldable pub cancel : UploadHub → Bytes → ℕ → Saving → Answer UploadQueueSnapshot × UploadHub
cancel hub id now saving =
    let without = record hub { uploads = keep (λ u. not (bytes_eq u.id id)) hub.uploads } in
    elim (find (λ u. bytes_eq u.id id) hub.uploads) [
      | none ↦ (err UploadError.not_found, hub)
      | some u ↦
          if finished u.status
          then (ok (snapshot without), without)
          else answer_of (finish hub id UploadStatus.cancelled none none now saving)
    ]
