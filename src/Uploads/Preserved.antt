-- ===== src/Uploads/Preserved.antt =====
-- Every operation of uploads.rs on uploads that are in the queue keeps the queue valid.
use forever.Prelude.{
  ℕ, ◌≡◌, refl, Bool, true, false, not, ◌&&◌, ◌||◌, Option, none, some, List, ◌∷◌, map, keep, find,
  update_first, any, ◌==◌, if◌then◌else◌, and_parts,
}
use forever.Bytes.{Bytes, bytes_eq}
use forever.Uploads.Types.{
  UploadSnapshot, UploadStatus, UploadTicket, UploadError, UploadQueueSnapshot, IndexedFile, Answer,
  ok, err, is_connecting, is_uploading, finished, is_cancelled,
}
use forever.UploadPolicy.{UploadPolicy}
use forever.Uploads.Hub.{
  UploadHub, Saving, Task, is_pending, snapshot, refresh_queue_positions, persist, abort,
}
use forever.Uploads.Operations.{
  has_token, wants_control, wants_file, ticket_of, change_first, claim_control,
  prepare_file_connection, claim_file,
}
use forever.Uploads.Transfers.{
  Metadata, open_file, begin_file, progressed, update_progress, ended, is_stale, finish_found,
  finish, fail_attempt, fail_connection, answer_of, cancel,
}
use forever.Uploads.Queue.{
  requeued, abort_active, connection_lost, clear_finished, set_policy, set_privileged, retry_save,
  register_task,
}
use forever.Uploads.Valid.{Valid, Replaces, Valid-Shrinks}
use forever.Uploads.Shrinks.{
  keep-Shrinks, map-Shrinks, update_first-Shrinks, Valid-refresh_positions,
}
use forever.Uploads.Keeps.{
  tokens_connecting, open_file-Replaces, progressed-Replaces, ended-Replaces, requeued-Replaces,
}

abbrev pub IsValid : UploadHub → Type 0
IsValid hub = Valid hub.uploads

-- A queue that was changed, numbered again and saved.
pub settled-Valid :
    (hub : UploadHub) (saving : Saving)
    → IsValid hub
    → IsValid (persist (refresh_queue_positions hub) saving)
unfolding persist refresh_queue_positions
settled-Valid hub saving h = Valid-refresh_positions hub.scheduler hub.uploads h

module _ (hub : UploadHub) (valid : IsValid hub) where
  change_first-Valid :
      (p : UploadSnapshot → Bool) (f : UploadSnapshot → UploadSnapshot) (token : ℕ)
      → ((u : UploadSnapshot) → p u ≡ true → Replaces u (f u))
      → IsValid (change_first p f token hub).1
  unfolding change_first
  change_first-Valid p f token r = go (find p hub.uploads)
    where
      answer : Option UploadSnapshot → Option UploadTicket × UploadHub
      answer o = elim o [
        | none ↦ (none, hub)
        | some u ↦
            (ticket_of (f u) (some token), record hub { uploads = update_first p f hub.uploads })
      ]

      go : (o : Option UploadSnapshot) → IsValid (answer o).1
      go none = valid
      go (some u) =
          Valid-Shrinks hub.uploads (update_first p f hub.uploads)
            (update_first-Shrinks p f hub.uploads r) valid

  pub claim_control-Valid : (token now : ℕ) → IsValid (claim_control hub token now).1
  unfolding claim_control
  claim_control-Valid token now =
      change_first-Valid (λ u. wants_control u && has_token u.connection_token token)
        (λ u. record u { control_claimed = true; updated_at_ms = now }) token
        (λ u e. (refl, refl, λ h. h, λ h. h))

  pub claim_file-Valid : (token now : ℕ) → IsValid (claim_file hub token now).1
  unfolding claim_file
  claim_file-Valid token now =
      change_first-Valid (λ u. wants_file u && has_token u.file_connection_token token)
        (λ u. record u { file_claimed = true; updated_at_ms = now }) token
        (λ u e. (refl, refl, λ h. h, λ h. h))

  pub prepare_file_connection-Valid :
      (id : Bytes) (token now : ℕ) → IsValid (prepare_file_connection hub id token now).1
  unfolding prepare_file_connection
  prepare_file_connection-Valid id token now =
      change_first-Valid (λ u. bytes_eq u.id id && is_connecting u.status)
        (λ u. record u {
          file_connection_token = some token;
          file_claimed = false;
          updated_at_ms = now;
        })
        token
        (λ u e. (
          refl,
          refl,
          λ h. h,
          λ h. (
            h.0,
            tokens_connecting u.status u.connection_token u.file_connection_token u.transfer_token
                (some token) (and_parts (bytes_eq u.id id) (is_connecting u.status) e).1 h.1,
          ),
        ))

  pub begin_file-Valid :
      (id : Bytes) (token : ℕ) (file : IndexedFile) (metadata : Bytes → Metadata) (now : ℕ)
      → IsValid (begin_file hub id token file metadata now).1
  unfolding begin_file
  begin_file-Valid id token file metadata now = go (find is_it hub.uploads)
    where
      is_it : UploadSnapshot → Bool
      is_it u = bytes_eq u.id id && is_connecting u.status

      change : UploadSnapshot → Answer UploadTicket × UploadSnapshot
      change u = open_file token file metadata now u

      answer : Option UploadSnapshot → Answer UploadTicket × UploadHub
      answer o = elim o [
        | none ↦ (err UploadError.not_found, hub)
        | some u ↦ (
          (change u).0,
          record hub { uploads = update_first is_it (λ u. (change u).1) hub.uploads },
        )
      ]

      go : (o : Option UploadSnapshot) → IsValid (answer o).1
      go none = valid
      go (some u) =
          Valid-Shrinks hub.uploads (update_first is_it (λ u. (change u).1) hub.uploads)
            (update_first-Shrinks is_it (λ u. (change u).1) hub.uploads
              (λ u e.
                open_file-Replaces token file metadata now u
                  (and_parts (bytes_eq u.id id) (is_connecting u.status) e).1))
            valid

  pub update_progress-Valid :
      (id : Bytes) (token transferred speed now : ℕ)
      → IsValid (update_progress hub id token transferred speed now)
  unfolding update_progress
  update_progress-Valid id token transferred speed now =
      let f = progressed token transferred speed now in
      Valid-Shrinks hub.uploads (update_first (λ u. bytes_eq u.id id) f hub.uploads)
        (update_first-Shrinks (λ u. bytes_eq u.id id) f hub.uploads
          (λ u e. progressed-Replaces u token transferred speed now))
        valid

  finish_found-Valid :
      (u : UploadSnapshot) (id : Bytes) (status : UploadStatus) (error : Option Bytes)
      (token : Option ℕ) (now : ℕ) (saving : Saving)
      → finished status ≡ true
      → IsValid (finish_found hub u id status error token now saving).1
  unfolding finish_found abort
  finish_found-Valid u id status error token now saving e =
      go (is_stale token u) (finished u.status && not (is_cancelled status))
    where
      hub' : UploadHub
      hub' = abort hub id

      hub'' : UploadHub
      hub'' = record hub' {
        uploads = update_first (λ u. bytes_eq u.id id) (ended status error now) hub.uploads;
      }

      answer : Bool → Bool → Bool × UploadHub
      answer a b =
          if a
          then (false, hub)
          else if b
          then (false, hub')
          else (true, persist (refresh_queue_positions hub'') saving)

      go : (a b : Bool) → IsValid (answer a b).1
      go true b = valid
      go false true = valid
      go false false = settled-Valid hub'' saving (
          Valid-Shrinks hub.uploads hub''.uploads
            (update_first-Shrinks (λ u. bytes_eq u.id id) (ended status error now) hub.uploads
              (λ u h. ended-Replaces u status error now e))
            valid)

  pub finish-Valid :
      (id : Bytes) (status : UploadStatus) (error : Option Bytes) (token : Option ℕ) (now : ℕ)
      (saving : Saving)
      → finished status ≡ true
      → IsValid (finish hub id status error token now saving).1
  unfolding finish
  finish-Valid id status error token now saving e = go (find (λ u. bytes_eq u.id id) hub.uploads)
    where
      answer : Option UploadSnapshot → Bool × UploadHub
      answer o = elim o [
        | none ↦ (false, hub)
        | some u ↦ finish_found hub u id status error token now saving
      ]

      go : (o : Option UploadSnapshot) → IsValid (answer o).1
      go none = valid
      go (some u) = finish_found-Valid u id status error token now saving e

  pub fail_connection-Valid :
      (token : ℕ) (message : Bytes) (now : ℕ) (saving : Saving)
      → IsValid (fail_connection hub token message now saving).1
  unfolding fail_connection fail_attempt
  fail_connection-Valid token message now saving = go (
      find
        (λ u.
          is_connecting u.status
          && (has_token u.connection_token token || has_token u.file_connection_token token))
        hub.uploads)
    where
      attempt : Bytes → Option ℕ → Bool × UploadHub
      attempt id o = elim o [
        | none ↦ (false, hub)
        | some t ↦ finish hub id UploadStatus.failed (some message) (some t) now saving
      ]

      answer : Option UploadSnapshot → Bool × UploadHub
      answer o = elim o [ none ↦ (false, hub) | some u ↦ attempt u.id u.transfer_token ]

      with_token : (id : Bytes) (o : Option ℕ) → IsValid (attempt id o).1
      with_token id none = valid
      with_token id (some t) =
          finish-Valid id UploadStatus.failed (some message) (some t) now saving refl

      go : (o : Option UploadSnapshot) → IsValid (answer o).1
      go none = valid
      go (some u) = with_token u.id u.transfer_token

  answered-Valid : (r : Bool × UploadHub) → IsValid r.1 → IsValid (answer_of r).1
  answered-Valid (true, h) v = v
  answered-Valid (false, h) v = v

  pub cancel-Valid : (id : Bytes) (now : ℕ) (saving : Saving) → IsValid (cancel hub id now saving).1
  unfolding cancel
  cancel-Valid id now saving = go (find (λ u. bytes_eq u.id id) hub.uploads)
    where
      without : UploadHub
      without = record hub { uploads = keep (λ u. not (bytes_eq u.id id)) hub.uploads }

      ending : Answer UploadQueueSnapshot × UploadHub
      ending = answer_of (finish hub id UploadStatus.cancelled none none now saving)

      answer : Option UploadSnapshot → Answer UploadQueueSnapshot × UploadHub
      answer o = elim o [
        | none ↦ (err UploadError.not_found, hub)
        | some u ↦ if finished u.status then (ok (snapshot without), without) else ending
      ]

      either : Bool → Answer UploadQueueSnapshot × UploadHub
      either b = if b then (ok (snapshot without), without) else ending

      branch : (b : Bool) → IsValid (either b).1
      branch true =
          Valid-Shrinks hub.uploads without.uploads
            (keep-Shrinks (λ u. not (bytes_eq u.id id)) hub.uploads) valid
      branch false =
          answered-Valid (finish hub id UploadStatus.cancelled none none now saving)
            (finish-Valid id UploadStatus.cancelled none none now saving refl)

      go : (o : Option UploadSnapshot) → IsValid (answer o).1
      go none = valid
      go (some u) = branch (finished u.status)

  pub clear_finished-Valid : (saving : Saving) → IsValid (clear_finished hub saving)
  unfolding clear_finished
  clear_finished-Valid saving =
      settled-Valid (record hub { uploads = keep is_pending hub.uploads }) saving
        (Valid-Shrinks hub.uploads (keep is_pending hub.uploads)
          (keep-Shrinks is_pending hub.uploads) valid)

  pub connection_lost-Valid : (saving : Saving) → IsValid (connection_lost hub saving)
  unfolding connection_lost
  connection_lost-Valid saving =
      settled-Valid (record (abort_active hub.uploads hub) { uploads = map requeued hub.uploads })
        saving
        (Valid-Shrinks hub.uploads (map requeued hub.uploads)
          (map-Shrinks requeued hub.uploads requeued-Replaces) valid)

  pub set_policy-Valid :
      (policy : UploadPolicy) (favorites : List Bytes) → IsValid (set_policy hub policy favorites)
  unfolding set_policy refresh_queue_positions
  set_policy-Valid policy favorites =
      Valid-refresh_positions (set_policy hub policy favorites).scheduler hub.uploads valid

  pub set_privileged-Valid : (users : List Bytes) → IsValid (set_privileged hub users)
  unfolding set_privileged refresh_queue_positions
  set_privileged-Valid users =
      Valid-refresh_positions (set_privileged hub users).scheduler hub.uploads valid

  pub retry_save-Valid : (saving : Saving) → IsValid (retry_save hub saving)
  unfolding retry_save persist
  retry_save-Valid saving = go hub.persistence_error
    where
      go : (o : Option Bytes) → IsValid (elim o [ none ↦ hub | some e ↦ persist hub saving ])
      go none = valid
      go (some e) = valid

  pub register_task-Valid : (id : Bytes) (token : ℕ) → IsValid (register_task hub id token).1
  unfolding register_task
  register_task-Valid id token = go (
      any (λ u. bytes_eq u.id id && (is_uploading u.status && has_token u.transfer_token token))
        hub.uploads)
    where
      task : Task
      task = (id, token)

      answer : Bool → Bool × UploadHub
      answer b =
          if b
          then (
            true,
            record hub {
              tasks = task ∷ keep (λ t. not (bytes_eq t.0 id && t.1 == token)) hub.tasks;
            },
          )
          else (false, record hub { cancelled = task ∷ hub.cancelled })

      go : (b : Bool) → IsValid (answer b).1
      go true = valid
      go false = valid
