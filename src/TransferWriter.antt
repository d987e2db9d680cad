-- ===== src/TransferWriter.antt =====
-- src-tauri/src/connection/transfer_writer.rs: the thread that saves the transfers, its clients, and
-- the steps in which they take turns. A step is what one holder of the lock does, or what the
-- worker does without it. Who waits on the condition variable sleeps until it is notified, or wakes
-- for no reason. `submitted` and `written` record what was asked for and what was done.
pub mod Valid
pub mod Kept
pub mod Invariant
pub mod Progress
use forever.Prelude.{
  ℕ, ◌+◌, Bool, true, false, not, Option, none, some, List, [], ◌∷◌, ◌++◌, ◌≡◌, ltb, if◌then◌else◌,
  map, update_at,
}
use forever.Bytes.{Bytes, bytes_eq}

pub record WriterState (A : Type 0) : Type 0 where
  pub pending : Option (ℕ × A)
  pub requested : ℕ
  pub completed : ℕ
  pub error : Option Bytes
  pub closed : Bool

-- Where the worker is: it holds the lock at the test of its loop, sleeps in `wait`, writes a
-- snapshot, reports an outcome, or has ended.
pub data Worker (A : Type 0) : Type 0 where
  waiting : Worker A
  asleep : Worker A
  writing : ℕ → A → Worker A
  reporting : Option Bytes → Worker A
  ended : Worker A

-- A call of `flush`: at the test of its loop, asleep in `wait`, or back with the error.
pub data Flusher : Type 0 where
  testing : Flusher
  sleeping : Flusher
  returned : Option Bytes → Flusher

pub record TransferWriter (A : Type 0) : Type 0 where
  pub state : WriterState A
  pub worker : Worker A
  pub flushers : List Flusher
  pub reports : List (Option Bytes)
  -- The snapshots that were submitted, and the writes that ended: the last first.
  pub submitted : List A
  pub written : List (ℕ × A × Option Bytes)

-- `state.error != error`
abbrev pub differs : Option Bytes → Option Bytes → Bool
differs none none = false
differs none (some b) = true
differs (some a) none = true
differs (some a) (some b) = not (bytes_eq a b)

unfoldable pub roused : Flusher → Flusher
roused testing = testing
roused sleeping = testing
roused (returned error) = returned error

module _ {A : Type 0} where
  unfoldable pub woken : Worker A → Worker A
  woken asleep = waiting
  woken waiting = waiting
  woken (writing revision store) = writing revision store
  woken (reporting failed) = reporting failed
  woken ended = ended

  -- `wake.notify_all()`
  unfoldable pub notify_all : TransferWriter A → TransferWriter A
  unfolding woken roused
  notify_all w = record w { worker = woken w.worker; flushers = map roused w.flushers }

  unfoldable pub new : TransferWriter A
  new = record {
    state = record { pending = none; requested = 0; completed = 0; error = none; closed = false };
    worker = waiting;
    flushers = [];
    reports = [];
    submitted = [];
    written = [];
  }

  unfoldable pub submit : A → TransferWriter A → TransferWriter A
  unfolding notify_all
  submit store w =
      let revision = w.state.requested + 1 in
      record (notify_all w) {
        state = record w.state { requested = revision; pending = some (revision, store) };
        submitted = store ∷ w.submitted;
      }

  unfoldable pub close : TransferWriter A → TransferWriter A
  unfolding notify_all
  close w = record (notify_all w) { state = record w.state { closed = true } }

  -- The next thing the worker does; `failure` is what `write` returns.
  unfoldable pub work_from :
      Worker A → Option (ℕ × A) → Option Bytes → TransferWriter A → TransferWriter A
  unfolding notify_all
  work_from waiting none failure w = record w { worker = if w.state.closed then ended else asleep }
  work_from asleep pending failure w = w
  work_from waiting (some (revision, store)) failure w = record w {
    state = record w.state { pending = none };
    worker = writing revision store;
  }
  work_from (writing revision store) pending failure w = record (notify_all w) {
    state = record w.state { error = failure; completed = revision };
    worker = if differs w.state.error failure then reporting failure else waiting;
    written = (revision, store, failure) ∷ w.written;
  }
  work_from (reporting failed) pending failure w = record w {
    worker = waiting;
    reports = w.reports ++ failed ∷ [];
  }
  work_from ended pending failure w = w

  unfoldable pub work : Option Bytes → TransferWriter A → TransferWriter A
  unfolding work_from
  work failure w = work_from w.worker w.state.pending failure w

  -- `flush` waits while `completed < requested`, and then returns the last error.
  unfoldable pub flush : TransferWriter A → Option (Option Bytes)
  flush w = if ltb w.state.completed w.state.requested then none else some w.state.error

  -- One round of that loop.
  unfoldable pub look : TransferWriter A → Flusher → Flusher
  unfolding flush
  look w testing = elim (flush w) [ none ↦ sleeping | some error ↦ returned error ]
  look w sleeping = sleeping
  look w (returned error) = returned error

  -- A writer that was dropped gets no more snapshots.
  pub data Step (w : TransferWriter A) : TransferWriter A → Type 0 where
    submits : (store : A) → w.state.closed ≡ false → Step w (submit store w)
    drops : Step w (close w)
    calls : Step w (record w { flushers = testing ∷ w.flushers })
    looks : (i : ℕ) → Step w (record w { flushers = update_at w.flushers i (look w) })
    stirs : (i : ℕ) → Step w (record w { flushers = update_at w.flushers i roused })
    stirs_worker : Step w (record w { worker = woken w.worker })
    works : (failure : Option Bytes) → Step w (work failure w)

  pub data Reachable : TransferWriter A → Type 0 where
    start : Reachable new
    next : {w w' : TransferWriter A} → Reachable w → Step w w' → Reachable w'
