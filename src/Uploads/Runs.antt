-- ===== src/Uploads/Runs.antt =====
-- Every sequence of operations on an `UploadHub` of uploads.rs that was loaded.
use forever.Prelude.{ℕ, ◌≡◌, refl, none, some, List, [], ◌∷◌}
use forever.Bytes.{Bytes}
use forever.Uploads.Types.{UploadSnapshot, UploadStatus, IndexedFile}
use forever.UploadPolicy.{UploadPolicy}
use forever.Uploads.Hub.{UploadHub, Saving}
use forever.Uploads.Operations.{
  enqueue, activate_next, claim_control, prepare_file_connection, claim_file,
}
use forever.Uploads.Transfers.{
  Metadata, begin_file, update_progress, complete, fail_attempt, fail_connection, cancel,
}
use forever.Uploads.Queue.{
  decode_store, load, retry, clear_finished, connection_lost, register_task, unregister_task,
  set_policy, set_privileged, retry_save,
}
use forever.Uploads.Valid.{Valid}
use forever.Uploads.Preserved.{
  IsValid, claim_control-Valid, claim_file-Valid, prepare_file_connection-Valid, begin_file-Valid,
  update_progress-Valid, finish-Valid, fail_connection-Valid, cancel-Valid, clear_finished-Valid,
  connection_lost-Valid, set_policy-Valid, set_privileged-Valid, retry_save-Valid,
  register_task-Valid,
}
use forever.Uploads.Joins.{enqueue-Valid}
use forever.Uploads.Slots.{activate_next-Valid}
use forever.Uploads.Returns.{retry-Valid, decoded-Valid}

-- The calls that change the hub, with their arguments.
pub data Operation : Type 0 where
  enqueue_file : Bytes → IndexedFile → ℕ → Saving → Operation
  activate_one : ℕ → ℕ → ℕ → Saving → Operation
  take_control : ℕ → ℕ → Operation
  prepare_file : Bytes → ℕ → ℕ → Operation
  take_file : ℕ → ℕ → Operation
  begin : Bytes → ℕ → IndexedFile → (Bytes → Metadata) → ℕ → Operation
  progress : Bytes → ℕ → ℕ → ℕ → ℕ → Operation
  complete_one : Bytes → ℕ → ℕ → Saving → Operation
  fail_one : Bytes → ℕ → Bytes → ℕ → Saving → Operation
  connection_failed : ℕ → Bytes → ℕ → Saving → Operation
  cancel_one : Bytes → ℕ → Saving → Operation
  retry_one : Bytes → ℕ → Saving → Operation
  clear : Saving → Operation
  lose_connection : Saving → Operation
  change_policy : UploadPolicy → List Bytes → Operation
  change_privileged : List Bytes → Operation
  save_again : Saving → Operation
  register : Bytes → ℕ → Operation
  unregister : Bytes → ℕ → Operation

abbrev pub run : Operation → UploadHub → UploadHub
run (Operation.enqueue_file username file now saving) hub = (enqueue hub username file now saving).1
run (Operation.activate_one token slots now saving) hub =
    (activate_next hub token slots now saving).1
run (Operation.take_control token now) hub = (claim_control hub token now).1
run (Operation.prepare_file id token now) hub = (prepare_file_connection hub id token now).1
run (Operation.take_file token now) hub = (claim_file hub token now).1
run (Operation.begin id token file metadata now) hub = (begin_file hub id token file metadata now).1
run (Operation.progress id token done speed now) hub = update_progress hub id token done speed now
run (Operation.complete_one id token now saving) hub = (complete hub id token now saving).1
run (Operation.fail_one id token message now saving) hub =
    (fail_attempt hub id token message now saving).1
run (Operation.connection_failed token message now saving) hub =
    (fail_connection hub token message now saving).1
run (Operation.cancel_one id now saving) hub = (cancel hub id now saving).1
run (Operation.retry_one id now saving) hub = (retry hub id now saving).1
run (Operation.clear saving) hub = clear_finished hub saving
run (Operation.lose_connection saving) hub = connection_lost hub saving
run (Operation.change_policy policy favorites) hub = set_policy hub policy favorites
run (Operation.change_privileged users) hub = set_privileged hub users
run (Operation.save_again saving) hub = retry_save hub saving
run (Operation.register id token) hub = (register_task hub id token).1
run (Operation.unregister id token) hub = unregister_task hub id token

abbrev pub run_all : List Operation → UploadHub → UploadHub
run_all [] hub = hub
run_all (o ∷ os) hub = run_all os (run o hub)

pub run-Valid : (o : Operation) (hub : UploadHub) → IsValid hub → IsValid (run o hub)
unfolding complete fail_attempt unregister_task
run-Valid (Operation.enqueue_file username file now saving) hub h =
    enqueue-Valid hub username file now saving h
run-Valid (Operation.activate_one token slots now saving) hub h =
    activate_next-Valid hub token slots now saving h
run-Valid (Operation.take_control token now) hub h = claim_control-Valid hub h token now
run-Valid (Operation.prepare_file id token now) hub h =
    prepare_file_connection-Valid hub h id token now
run-Valid (Operation.take_file token now) hub h = claim_file-Valid hub h token now
run-Valid (Operation.begin id token file metadata now) hub h =
    begin_file-Valid hub h id token file metadata now
run-Valid (Operation.progress id token done speed now) hub h =
    update_progress-Valid hub h id token done speed now
run-Valid (Operation.complete_one id token now saving) hub h =
    finish-Valid hub h id UploadStatus.completed none (some token) now saving refl
run-Valid (Operation.fail_one id token message now saving) hub h =
    finish-Valid hub h id UploadStatus.failed (some message) (some token) now saving refl
run-Valid (Operation.connection_failed token message now saving) hub h =
    fail_connection-Valid hub h token message now saving
run-Valid (Operation.cancel_one id now saving) hub h = cancel-Valid hub h id now saving
run-Valid (Operation.retry_one id now saving) hub h = retry-Valid hub now saving h id
run-Valid (Operation.clear saving) hub h = clear_finished-Valid hub h saving
run-Valid (Operation.lose_connection saving) hub h = connection_lost-Valid hub h saving
run-Valid (Operation.change_policy policy favorites) hub h = set_policy-Valid hub h policy favorites
run-Valid (Operation.change_privileged users) hub h = set_privileged-Valid hub h users
run-Valid (Operation.save_again saving) hub h = retry_save-Valid hub h saving
run-Valid (Operation.register id token) hub h = register_task-Valid hub h id token
run-Valid (Operation.unregister id token) hub h = h

run_all-preserves : (os : List Operation) (hub : UploadHub) → IsValid hub → IsValid (run_all os hub)
run_all-preserves [] hub h = h
run_all-preserves (o ∷ os) hub h = run_all-preserves os (run o hub) (run-Valid o hub h)

-- A queue that `decode_store` accepts stays valid from `load` on through every sequence of
-- operations, whatever their arguments, the clock and the outcome of each save: at most 500
-- uploads are pending, no two pending ones are for the same file of the same user in whatever
-- case, none has sent more than its size, and each has the tokens that its status needs.
pub session-Valid :
    (uploads : List UploadSnapshot) (served : List Bytes) (policy : UploadPolicy) (seed : ℕ)
    (stored : List UploadSnapshot × List Bytes) (operations : List Operation)
    → decode_store uploads served ≡ some stored
    → Valid (run_all operations (load stored policy seed)).uploads
session-Valid uploads served policy seed stored operations h =
    run_all-preserves operations (load stored policy seed)
      (decoded-Valid uploads served policy seed stored h)
