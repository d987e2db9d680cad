-- ===== src/Uploads/Queue.antt =====
-- The operations of `UploadHub` on the whole queue, and on its policy.
use forever.Prelude.{
  ℕ, zero, suc, ◌+◌, ◌%◌, ◌^◌, max, Bool, true, false, not, ◌&&◌, ◌||◌, Option, none, some, List,
  [], ◌∷◌, ltb, ◌==◌, if◌then◌else◌, keep, any, update_at, get_elem?, length, is_empty, map,
}
use forever.Bytes.{Bytes, bytes_eq}
use forever.Text.{to_ascii_lowercase}
use forever.Text.Trim.{trim}
use forever.Uploads.Types.{
  UploadSnapshot, UploadQueueSnapshot, UploadError, Answer, ok, err, finished, is_uploading,
  is_failed,
}
use forever.UploadPolicy.{UploadPolicy, FairScheduler, refresh_positions}
use forever.Uploads.Hub.{
  UploadHub, Saving, Task, max_upload_queue, is_active, is_pending, is_request, snapshot,
  reset_pending, refresh_queue_positions, persist, abort,
}
use forever.Uploads.Operations.{has_token, refusal}

-- `Vec::remove`
abbrev pub remove_at : List UploadSnapshot → ℕ → List UploadSnapshot
remove_at [] i = []
remove_at (u ∷ us) zero = us
remove_at (u ∷ us) (suc i) = u ∷ remove_at us i

-- `iter().position(…)`
abbrev pub position : (UploadSnapshot → Bool) → List UploadSnapshot → Option ℕ
position p [] = none
position p (u ∷ us) =
    let rest = position p us in
    elim (p u) [ true ↦ some 0 | false ↦ elim rest [ none ↦ none | some i ↦ some (suc i) ] ]

abbrev pub retried : ℕ → UploadSnapshot → UploadSnapshot
retried now u = record (reset_pending u) { updated_at_ms = now }

unfoldable pub settled :
    UploadHub → List UploadSnapshot → Saving → Answer UploadQueueSnapshot × UploadHub
settled hub uploads saving =
    let hub' = persist (refresh_queue_positions (record hub { uploads = uploads })) saving in
    (ok (snapshot hub'), hub')

unfoldable pub retry_at :
    UploadHub → ℕ → UploadSnapshot → ℕ → Saving → Answer UploadQueueSnapshot × UploadHub
unfolding settled
retry_at hub i u now saving =
    if any (is_request u.username u.remote_filename) hub.uploads
    then settled hub (remove_at hub.uploads i) saving
    else elim (refusal hub u.username u.size_bytes) [
      | some e ↦ (err e, hub)
      | none ↦ settled hub (update_at hub.uploads i (retried now)) saving
    ]

unfoldable pub retry : UploadHub → Bytes → ℕ → Saving → Answer UploadQueueSnapshot × UploadHub
unfolding retry_at
retry hub id now saving =
    elim (position (λ u. bytes_eq u.id id && is_failed u.status) hub.uploads) [
      | none ↦ (err UploadError.not_found, hub)
      | some i ↦ elim (get_elem? hub.uploads i) [
        | none ↦ (err UploadError.not_found, hub)
        | some u ↦ retry_at hub i u now saving
      ]
    ]

unfoldable pub clear_finished : UploadHub → Saving → UploadHub
clear_finished hub saving =
    persist (refresh_queue_positions (record hub { uploads = keep is_pending hub.uploads })) saving

-- Every active upload is aborted and goes back to the queue.
unfoldable pub abort_active : List UploadSnapshot → UploadHub → UploadHub
abort_active [] hub = hub
abort_active (u ∷ us) hub = abort_active us (if is_active u then abort hub u.id else hub)

unfoldable pub requeued : UploadSnapshot → UploadSnapshot
requeued u = if is_active u then reset_pending u else u

unfoldable pub connection_lost : UploadHub → Saving → UploadHub
unfolding abort_active requeued
connection_lost hub saving =
    let hub' = abort_active hub.uploads hub in
    persist (refresh_queue_positions (record hub' { uploads = map requeued hub.uploads })) saving

unfoldable pub register_task : UploadHub → Bytes → ℕ → Bool × UploadHub
register_task hub id token =
    let task : Task = (id, token) in
    if any (λ u. bytes_eq u.id id && (is_uploading u.status && has_token u.transfer_token token))
      hub.uploads
    then (
      true,
      record hub { tasks = task ∷ keep (λ t. not (bytes_eq t.0 id && t.1 == token)) hub.tasks },
    )
    else (false, record hub { cancelled = task ∷ hub.cancelled })

unfoldable pub unregister_task : UploadHub → Bytes → ℕ → UploadHub
unregister_task hub id token = record hub {
  tasks = keep (λ t. not (bytes_eq t.0 id && t.1 == token)) hub.tasks;
}

unfoldable pub set_policy : UploadHub → UploadPolicy → List Bytes → UploadHub
set_policy hub policy favorites = refresh_queue_positions (record hub {
  scheduler = record hub.scheduler {
    policy = policy;
    favorites = map to_ascii_lowercase favorites;
  };
})

unfoldable pub set_privileged : UploadHub → List Bytes → UploadHub
set_privileged hub users =
    refresh_queue_positions (record hub {
      scheduler = record hub.scheduler { privileged = map to_ascii_lowercase users };
    })

unfoldable pub retry_save : UploadHub → Saving → UploadHub
retry_save hub saving = elim hub.persistence_error [ none ↦ hub | some e ↦ persist hub saving ]

-- `decode_store`: the checks on a queue that was parsed; `served` is what the file says.
unfoldable pub is_invalid : List Bytes → List (Bytes × Bytes) → UploadSnapshot → Bool
is_invalid ids requests u =
    is_empty (trim u.username)
    || (ltb 100 (length u.username)
        || (is_empty u.remote_filename
            || (ltb 32768 (length u.remote_filename)
                || (finished u.status
                    || (any (bytes_eq u.id) ids
                        || any
                            (λ r.
                              bytes_eq r.0 (to_ascii_lowercase u.username)
                              && bytes_eq r.1 (to_ascii_lowercase u.remote_filename))
                            requests)))))

unfoldable pub check_pending : List Bytes → List (Bytes × Bytes) → List UploadSnapshot → Bool
unfolding is_invalid
check_pending ids requests [] = true
check_pending ids requests (u ∷ us) =
    let rest =
      check_pending (u.id ∷ ids)
        ((to_ascii_lowercase u.username, to_ascii_lowercase u.remote_filename) ∷ requests) us in
    if is_invalid ids requests u then false else rest

unfoldable pub decode_store :
    List UploadSnapshot → List Bytes → Option (List UploadSnapshot × List Bytes)
unfolding check_pending
decode_store uploads served =
    if ltb max_upload_queue (length uploads) || ltb max_upload_queue (length served)
    then none
    else if check_pending [] [] uploads
    then some (uploads, served)
    else none

-- `(seed as u32).wrapping_add(0x6000).max(1)`
unfoldable pub first_token : ℕ → ℕ
first_token seed = max ((seed + 0x6000) % 2 ^ 32) 1

-- `UploadHub::load`, from the queue that was decoded; `seed` is the clock in milliseconds.
unfoldable pub load : List UploadSnapshot × List Bytes → UploadPolicy → ℕ → UploadHub
load (uploads, served) policy seed =
    let scheduler : FairScheduler = record {
      served = served;
      policy = policy;
      favorites = [];
      privileged = [];
    } in
    record {
      scheduler = scheduler;
      uploads = refresh_positions scheduler (map reset_pending uploads);
      persistence_error = none;
      tasks = [];
      cancelled = [];
      next_id = seed;
      next_transfer_token = first_token seed;
      saved = (uploads, served);
    }
