-- ===== src/Examples/Messages.antt =====
-- A message that comes in and one that is queued, and what is left when the connection is lost.
use forever.Prelude.{ℕ, ◌≡◌, none, some, List, [], ◌∷◌, All}
use forever.Bytes.{Bytes}
use forever.Messages.{Saving, Store, snapshot_from}
use forever.Messages.Operations.{fail_queued}
use forever.Messages.Valid.{Valid}
use forever.Messages.Runs.{
  Operation, run_all, unread_in, NoneWaits, run_all-Valid, snapshot-unread, fail_queued-NoneWaits,
}

abbrev ann : Bytes
ann = b'a' ∷ b'n' ∷ b'n' ∷ []

abbrev operations : List (Operation × ℕ × Saving)
operations =
    (Operation.receives 7 3 ann ann, 5_000, none)
    ∷ (Operation.queues ann ann, 6_000, none)
    ∷ (Operation.unreads ann, 7_000, some ann)
    ∷ []

abbrev store : Store
store = run_all operations []

run_all-Valid_example : Valid store
run_all-Valid_example = run_all-Valid operations

snapshot-unread_example : (snapshot_from store 8_000).unread_count ≡ unread_in store
snapshot-unread_example = snapshot-unread operations 8_000

fail_queued-NoneWaits_example : All NoneWaits (fail_queued store ann 9_000 none).1
fail_queued-NoneWaits_example = fail_queued-NoneWaits store ann 9_000 none
