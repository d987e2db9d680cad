-- ===== src/Uploads/Hub.antt =====
-- `UploadHub` of uploads.rs: its state, and what every operation is made of. An operation is one
-- function on the state, as if nothing ran in between: some of them (`cancel`, `fail_connection`,
-- `retry_save`, `set_policy`) take their locks more than once, and what another thread does between
-- two of those is not modelled. `Saving` is what the file system does with a save: `none`, or the
-- text of the I/O error.
use forever.Prelude.{
  ℕ, zero, suc, ◌+◌, ◌*◌, ◌-◌, ◌/◌, ◌%◌, ◌^◌, min, Bool, true, false, not, ◌&&◌, Option, none, some,
  List, [], ◌∷◌, ◌++◌, leb, ltb, ◌==◌, if◌then◌else◌, keep, any, length,
}
use forever.Bytes.{Bytes, bytes_eq}
use forever.Text.{to_ascii_lowercase}
use forever.Uploads.Types.{
  UploadStatus, UploadSnapshot, UploadTicket, UploadQueueSnapshot, UploadError, occupies_slot,
  finished, is_queued, is_completed, eq_ignore_ascii_case,
}
use forever.UploadPolicy.{UploadPolicy, FairScheduler, refresh_positions}

abbrev pub max_upload_queue : ℕ
max_upload_queue = 500

abbrev pub Saving : Type 0
Saving = Option Bytes

-- The key of `UploadTasks`.
abbrev pub Task : Type 0
Task = Bytes × ℕ

pub record UploadHub : Type 0 where
  pub scheduler : FairScheduler
  pub uploads : List UploadSnapshot
  -- The I/O error in the text that the interface shows.
  pub persistence_error : Option Bytes
  -- The tasks that run, and those whose cancellation flag was set.
  pub tasks : List Task
  pub cancelled : List Task
  pub next_id : ℕ
  pub next_transfer_token : ℕ
  -- What the file holds: the uploads and the names that were served.
  pub saved : List UploadSnapshot × List Bytes

abbrev pub count : (UploadSnapshot → Bool) → List UploadSnapshot → ℕ
count p uploads = length (keep p uploads)

abbrev pub is_active : UploadSnapshot → Bool
is_active u = occupies_slot u.status

abbrev pub is_pending : UploadSnapshot → Bool
is_pending u = not (finished u.status)

-- The request of a user for a file, which stands in the queue once.
abbrev pub is_request : Bytes → Bytes → UploadSnapshot → Bool
is_request username remote_filename u =
    is_pending u
    && (eq_ignore_ascii_case u.username username
        && eq_ignore_ascii_case u.remote_filename remote_filename)

unfoldable pub active_count : UploadHub → ℕ
active_count hub = count is_active hub.uploads

unfoldable pub has_free_slot : UploadHub → ℕ → Bool
has_free_slot hub slots = ltb (count is_active hub.uploads) slots

unfoldable pub queued_count : UploadHub → ℕ
queued_count hub = min (count (λ u. is_queued u.status) hub.uploads) (2 ^ 32 - 1)

-- A sum of `u64`s, which wraps around in a release build.
unfoldable pub uploaded_bytes : List UploadSnapshot → ℕ
uploaded_bytes [] = 0
uploaded_bytes (u ∷ us) =
    let rest = uploaded_bytes us in
    if is_completed u.status then (u.size_bytes + rest) % 2 ^ 64 else rest

unfoldable pub snapshot : UploadHub → UploadQueueSnapshot
unfolding uploaded_bytes
snapshot hub = record {
  uploads = hub.uploads;
  active_count = count is_active hub.uploads;
  queued_count = count (λ u. is_queued u.status) hub.uploads;
  session_uploaded_bytes = uploaded_bytes hub.uploads;
  persistence_error = hub.persistence_error;
}

unfoldable pub ticket_from : UploadSnapshot → ℕ → ℕ → UploadTicket
ticket_from u connection_token transfer_token = record {
  id = u.id;
  username = u.username;
  remote_filename = u.remote_filename;
  size_bytes = u.size_bytes;
  local_path = u.local_path;
  connection_token = connection_token;
  transfer_token = transfer_token;
}

unfoldable pub reset_pending : UploadSnapshot → UploadSnapshot
reset_pending u = record u {
  status = UploadStatus.queued;
  transferred_bytes = 0;
  speed_bytes_per_second = 0;
  eta_seconds = none;
  connection_token = none;
  file_connection_token = none;
  transfer_token = none;
  control_claimed = false;
  file_claimed = false;
  error = none;
}

-- `u64::saturating_add`, folded over the sizes.
unfoldable pub total_size : ℕ → List UploadSnapshot → ℕ
total_size total [] = total
total_size total (u ∷ us) = total_size (min (total + u.size_bytes) (2 ^ 64 - 1)) us

unfoldable pub pending_of : List UploadSnapshot → Bytes → List UploadSnapshot
pending_of uploads username =
    keep (λ u. is_pending u && eq_ignore_ascii_case u.username username) uploads

unfoldable pub check_user_limits :
    List UploadSnapshot → Bytes → ℕ → UploadPolicy → Option UploadError
check_user_limits uploads username size policy =
    let pending = pending_of uploads username in
    if leb policy.max_files_per_user (length pending)
    then some UploadError.too_many_files
    else if ltb (policy.max_megabytes_per_user * 1_000_000) (total_size size pending)
    then some UploadError.too_many_megabytes
    else none

unfoldable pub refresh_queue_positions : UploadHub → UploadHub
refresh_queue_positions hub = record hub { uploads = refresh_positions hub.scheduler hub.uploads }

-- The names that stay in the round: of the users who have an upload pending.
unfoldable pub retained : List UploadSnapshot → List Bytes → List Bytes
retained pending served =
    keep (λ user. any (λ u. bytes_eq (to_ascii_lowercase u.username) user) pending) served

-- "Upload queue could not be saved: {e}. New uploads wait until saving succeeds."
abbrev not_saved : Bytes
not_saved =
    b'U' ∷ b'p' ∷ b'l' ∷ b'o' ∷ b'a' ∷ b'd' ∷ b' ' ∷ b'q' ∷ b'u' ∷ b'e' ∷ b'u' ∷ b'e' ∷ b' ' ∷ b'c'
    ∷ b'o' ∷ b'u' ∷ b'l' ∷ b'd' ∷ b' ' ∷ b'n' ∷ b'o' ∷ b't' ∷ b' ' ∷ b'b' ∷ b'e' ∷ b' ' ∷ b's'
    ∷ b'a' ∷ b'v' ∷ b'e' ∷ b'd' ∷ b':' ∷ b' ' ∷ []

abbrev uploads_wait : Bytes
uploads_wait =
    b'.' ∷ b' ' ∷ b'N' ∷ b'e' ∷ b'w' ∷ b' ' ∷ b'u' ∷ b'p' ∷ b'l' ∷ b'o' ∷ b'a' ∷ b'd' ∷ b's' ∷ b' '
    ∷ b'w' ∷ b'a' ∷ b'i' ∷ b't' ∷ b' ' ∷ b'u' ∷ b'n' ∷ b't' ∷ b'i' ∷ b'l' ∷ b' ' ∷ b's' ∷ b'a'
    ∷ b'v' ∷ b'i' ∷ b'n' ∷ b'g' ∷ b' ' ∷ b's' ∷ b'u' ∷ b'c' ∷ b'c' ∷ b'e' ∷ b'e' ∷ b'd' ∷ b's'
    ∷ b'.' ∷ []

unfoldable pub save_message : Saving → Option Bytes
save_message none = none
save_message (some e) = some (not_saved ++ (e ++ uploads_wait))

unfoldable pub persist : UploadHub → Saving → UploadHub
unfolding retained save_message
persist hub saving =
    let pending = keep is_pending hub.uploads in
    let served = retained pending hub.scheduler.served in
    record hub {
      scheduler = record hub.scheduler { served = served };
      persistence_error = save_message saving;
      saved = elim saving [ none ↦ (pending, served) | some e ↦ hub.saved ];
    }

-- `abort`: the tasks of an upload are told to stop, and forgotten.
unfoldable pub abort : UploadHub → Bytes → UploadHub
abort hub id = record hub {
  tasks = keep (λ task. not (bytes_eq task.0 id)) hub.tasks;
  cancelled = keep (λ task. bytes_eq task.0 id) hub.tasks ++ hub.cancelled;
}

-- `fetch_add` wraps; a token 0 is passed over, and the next one is 1.
unfoldable pub take_transfer_token : UploadHub → ℕ × UploadHub
take_transfer_token hub =
    let next = hub.next_transfer_token in
    if next == 0
    then (1, record hub { next_transfer_token = 2 })
    else (next, record hub { next_transfer_token = (next + 1) % 2 ^ 32 })

-- `format!("{n}")` of a 64-bit number
unfoldable pub digits : ℕ → ℕ → Bytes → Bytes
digits zero n rest = rest
digits (suc rounds) n rest =
    let text = (b'0' + n % 10) ∷ rest in
    elim (n / 10 == 0) [ true ↦ text | false ↦ digits rounds (n / 10) text ]

abbrev pub decimal : ℕ → Bytes
decimal n = digits 20 n []

-- `format!("upload-{now}-{id_number}")`
unfoldable pub upload_id : ℕ → ℕ → Bytes
upload_id now number =
    b'u' ∷ b'p' ∷ b'l' ∷ b'o' ∷ b'a' ∷ b'd' ∷ b'-' ∷ (decimal now ++ (b'-' ∷ decimal number))
