-- ===== src/Examples/Network.antt =====
-- A guard that sees two searches, a branch that takes a child, and a store that is saved.
use forever.Prelude.{
  update_at, map, length, All, ℕ, ◌≡◌, refl, ◌≤◌, ◌++◌, true, none, some, List, [], ◌∷◌, Option,
  arith,
}
use forever.Bytes.{Bytes, bytes_eq}
use forever.Text.{to_ascii_lowercase}
use forever.Text.Utf8.{IsText, is_utf8}
use forever.Protocol.Error.{ok}
use forever.Protocol.Distributed.{parse_distributed_branch_root, parse_distributed_branch_level}
use forever.RequestGuard.{RequestAdmission, RequestGuard, admit, new_guard, max_requests_per_window}
use forever.RequestGuard.Bounds.{Bounded, new_guard-Bounded}
use forever.RequestGuard.Window.{
  Request, admit_all, in_window, last_time, admit_all-rate, admit_all-Bounded,
}
use forever.RequestGuard.Duplicates.{admit-duplicate}
use forever.Branch.{new, root_frame, level_frame}
use forever.Branch.Capacity.{Fits}
use forever.Branch.Life.{Event, steps, steps-Fits}
use forever.Branch.Frames.{
  received_as, parse_distributed_branch_root-root_frame, parse_distributed_branch_level-level_frame,
}
use forever.TransferWriter.{
  TransferWriter, submit, work, flush, Reachable, start, next, submits, works, calls, looks, look,
}
use forever.TransferWriter
use forever.TransferWriter.Invariant.{Flushed, flush-Flushed}
use forever.TransferWriter.Progress.{work_all, IsReturned, flush-returns}

abbrev ann : Bytes
ann = b'A' ∷ b'n' ∷ b'n' ∷ []

abbrev ann_again : Bytes
ann_again = b'a' ∷ b'n' ∷ b'N' ∷ []

abbrev requests : List Request
requests =
    record { username = ann; token = 1; time = 10 }
    ∷ record { username = ann; token = 2; time = 900 }
    ∷ []

admit_all-Bounded_example : Bounded (admit_all requests new_guard []).0
admit_all-Bounded_example = admit_all-Bounded requests new_guard [] new_guard-Bounded

admit_all-rate_example :
    in_window (last_time 0 requests) (admit_all requests new_guard []).1 ≤ max_requests_per_window
admit_all-rate_example = admit_all-rate requests (omega arith, (omega arith, tt))

ann_is_admitted : (admit new_guard ann 1 10).0 ≡ RequestAdmission.allowed
unfolding admit
ann_is_admitted = refl

abbrev between : List Request
between = record { username = b'b' ∷ []; token = 1; time = 400 } ∷ []

abbrev guarded : RequestGuard
guarded = (admit new_guard ann 1 10).1

one_admitted : length (admit_all between guarded []).1 ≡ 1
unfolding admit admit_all bytes_eq to_ascii_lowercase
one_admitted = refl

admit-duplicate_example :
    (admit (admit_all between guarded []).0 ann_again 1 60_000).0 ≡ RequestAdmission.duplicate
unfolding to_ascii_lowercase
admit-duplicate_example =
    admit-duplicate new_guard ann ann_again 1 10 60_000 between new_guard-Bounded ann_is_admitted
      (omega arith, tt) (omega (arith, one_admitted)) refl (omega arith)

abbrev events : List Event
events =
    Event.learns_topology 2 ann 10
    ∷ Event.learns_speeds (some 1) (some 50) 20_000
    ∷ Event.refreshes true true 70_010
    ∷ Event.adds (b'b' ∷ []) (b'c' ∷ []) none
    ∷ Event.learns_level 3 70_020
    ∷ []

steps-Fits_example : Fits (steps events (new 0))
steps-Fits_example = steps-Fits events 0

ann-IsText : IsText ann
unfolding is_utf8
ann-IsText = refl

parse_distributed_branch_root-root_frame_example :
    received_as parse_distributed_branch_root (root_frame ann ++ 7 ∷ []) ≡ ok (ann, 7 ∷ [])
parse_distributed_branch_root-root_frame_example =
    parse_distributed_branch_root-root_frame ann (7 ∷ []) ann-IsText refl

parse_distributed_branch_level-level_frame_example :
    received_as parse_distributed_branch_level (level_frame 3 ++ 7 ∷ []) ≡ ok (3, 7 ∷ [])
parse_distributed_branch_level-level_frame_example =
    parse_distributed_branch_level-level_frame 3 (7 ∷ []) (omega arith)

-- Two snapshots, the first of them being written; and a call of `flush` that fell asleep.
abbrev saved : TransferWriter ℕ
saved = work none (work none (submit 8 (submit 7 TransferWriter.new)))

saved-Reachable : Reachable saved
unfolding submit work TransferWriter.new
saved-Reachable =
    next (next (next (next start (submits 7 refl)) (submits 8 refl)) (works none)) (works none)

saved_is_flushed : flush saved ≡ some none
unfolding flush submit work TransferWriter.new
saved_is_flushed = refl

flush-Flushed_example : Flushed saved saved.written none
flush-Flushed_example = flush-Flushed saved none saved-Reachable saved_is_flushed

abbrev submitted : TransferWriter ℕ
submitted = submit 7 TransferWriter.new

abbrev called : TransferWriter ℕ
called = record submitted { flushers = TransferWriter.testing ∷ submitted.flushers }

abbrev asleep : TransferWriter ℕ
asleep = record called { flushers = update_at called.flushers 0 (look called) }

asleep-Reachable : Reachable asleep
unfolding submit TransferWriter.new
asleep-Reachable = next (next (next start (submits 7 refl)) calls) (looks 0)

it_sleeps : asleep.flushers ≡ TransferWriter.sleeping ∷ []
unfolding look flush submit TransferWriter.new
it_sleeps = refl

abbrev failures : List (Option Bytes)
failures = some ann ∷ none ∷ none ∷ none ∷ []

flush-returns_example :
    (flush (work_all failures asleep) ≡ some (work_all failures asleep).state.error)
    × (length (work_all failures asleep).flushers ≡ length asleep.flushers)
    × All IsReturned (map (look (work_all failures asleep)) (work_all failures asleep).flushers)
flush-returns_example = flush-returns failures asleep asleep-Reachable (omega arith)
