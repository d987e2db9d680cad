-- ===== src/Examples/Uploads.antt =====
-- A queue in which one user has an active upload and another waits behind.
use forever.Prelude.{
  ◌≡◌, ◌≢◌, refl, ◌+◌, false, none, some, List, [], ◌∷◌, length, map, All, keep, arith,
}
use forever.Bytes.{Bytes, bytes_eq}
use forever.Text.{to_ascii_lowercase}
use forever.Text.Trim.{trim}
use forever.Uploads.Types.{UploadStatus, UploadSnapshot, IndexedFile}
use forever.UploadPolicy.{
  FairScheduler, default_policy, take_next, take_for, minimum, waiting_from, active, candidates_of,
  choose, new_round, serve, least, key_lt, key_of, refresh_positions, positions_from,
  occupied_position,
}
use forever.UploadPolicy.Fifo.{IsFirst, take_next-IsFirst}
use forever.UploadPolicy.Fair.{Outcome, take_next-Outcome, queue}
use forever.UploadPolicy.Numbers.{
  NumberOf, position_at, refresh_positions_enough, refresh_positions-numbers, take_next-number,
}
use forever.Uploads.Hub.{UploadHub, count, is_active}
use forever.Uploads.Operations.{enqueue, activate_next}
use forever.Uploads.Queue.{decode_store, load, connection_lost}
use forever.Uploads.Valid.{Valid}
use forever.Uploads.Runs.{Operation, run_all, session-Valid}
use forever.Uploads.Joins.{IsUnchanged, enqueue-IsUnchanged}
use forever.Uploads.Activates.{Activated}
use forever.Uploads.Slots.{activate_next-Activated}
use forever.Uploads.Disconnect.{IsStopped, connection_lost-quiet}

abbrev ann : Bytes
ann = b'A' ∷ b'n' ∷ b'n' ∷ []

abbrev bob : Bytes
bob = b'b' ∷ b'o' ∷ b'b' ∷ []

abbrev upload : Bytes → Bytes → Bytes → UploadStatus → UploadSnapshot
upload id username file status = record {
  id = id;
  username = username;
  remote_filename = file;
  filename = file;
  size_bytes = 9;
  transferred_bytes = 0;
  speed_bytes_per_second = 0;
  eta_seconds = none;
  status = status;
  queue_position = none;
  error = none;
  created_at_ms = 1;
  updated_at_ms = 1;
  local_path = file;
  connection_token = none;
  file_connection_token = none;
  transfer_token = none;
  control_claimed = false;
  file_claimed = false;
}

abbrev uploads : List UploadSnapshot
uploads =
    upload ann ann ann UploadStatus.uploading
    ∷ upload bob ann bob UploadStatus.queued
    ∷ upload (b'c' ∷ []) bob bob UploadStatus.queued
    ∷ []

abbrev idle : FairScheduler
idle = record { served = bob ∷ []; policy = default_policy; favorites = []; privileged = [] }

take_next-Outcome_example : Outcome idle uploads (take_next idle uploads)
take_next-Outcome_example = take_next-Outcome idle uploads

take_next-IsFirst_example : IsFirst uploads (take_next idle uploads).0
take_next-IsFirst_example = take_next-IsFirst uploads idle

refresh_positions_enough_example :
    positions_from (7 + length uploads) 1 idle uploads (map occupied_position uploads)
    ≡ refresh_positions idle uploads
refresh_positions_enough_example = refresh_positions_enough idle uploads 7

refresh_positions-numbers_example :
    NumberOf 1 (refresh_positions idle uploads) (length (queue uploads)) 1
    × NumberOf 1 (refresh_positions idle uploads) (length (queue uploads)) 2
    × (position_at (refresh_positions idle uploads) 1
        ≢ position_at (refresh_positions idle uploads) 2)
refresh_positions-numbers_example =
    refresh_positions-numbers idle uploads 1 2 (upload bob ann bob UploadStatus.queued)
      (upload (b'c' ∷ []) bob bob UploadStatus.queued) (λ e. absurd (omega arith)) (refl, refl)
      (refl, refl)

next_is_bob : (take_next idle uploads).0 ≡ some 2
unfolding take_next take_for minimum waiting_from active candidates_of choose new_round serve least
    key_lt key_of to_ascii_lowercase bytes_eq
next_is_bob = refl

take_next-number_example : position_at (refresh_positions idle uploads) 2 ≡ some 1
take_next-number_example = take_next-number uploads idle 2 next_is_bob

abbrev stored : List UploadSnapshot
stored = upload ann ann ann UploadStatus.queued ∷ upload bob bob bob UploadStatus.queued ∷ []

stored_is_decoded : decode_store stored [] ≡ some (stored, [])
unfolding decode_store trim to_ascii_lowercase bytes_eq
stored_is_decoded = refl

abbrev operations : List Operation
operations =
    Operation.activate_one 5 1 2 none
    ∷ Operation.take_control 5 3
    ∷ Operation.prepare_file ann 6 4
    ∷ Operation.lose_connection (some ann)
    ∷ []

session-Valid_example : Valid (run_all operations (load (stored, []) default_policy 7)).uploads
session-Valid_example =
    session-Valid stored [] default_policy 7 (stored, []) operations stored_is_decoded

abbrev hub : UploadHub
hub = record {
  scheduler = idle;
  uploads = uploads;
  persistence_error = none;
  tasks = (ann, 4) ∷ [];
  cancelled = [];
  next_id = 1;
  next_transfer_token = 0;
  saved = ([], []);
}

abbrev song : IndexedFile
song = record { remote_filename = ann; filename = ann; size_bytes = 9; local_path = bob }

enqueue-IsUnchanged_example : IsUnchanged hub bob song 2 (enqueue hub bob song 2 (some ann))
enqueue-IsUnchanged_example = enqueue-IsUnchanged hub bob song 2 (some ann)

activate_next-Activated_example : Activated hub 2 (activate_next hub 5 2 3 none)
activate_next-Activated_example = activate_next-Activated hub 5 2 3 none

connection_lost-quiet_example :
    (count is_active (connection_lost hub none).uploads ≡ 0)
    × All (IsStopped hub (connection_lost hub none)) (keep is_active hub.uploads)
connection_lost-quiet_example = connection_lost-quiet hub none
