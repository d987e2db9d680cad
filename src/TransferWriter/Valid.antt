-- ===== src/TransferWriter/Valid.antt =====
-- What holds in every state of transfer_writer.rs: the newest snapshot is pending, or being written,
-- or written, and nobody sleeps who has something to do.
use forever.Prelude.{
  ℕ, zero, suc, ◌+◌, ◌≤◌, ◌<◌, All, map, update_at, ◌≡◌, refl, Bool, true, false, Option, none,
  some, List, [], ◌∷◌, get_elem?, arith,
}
use forever.Bytes.{Bytes}
use forever.TransferWriter.{
  Flusher, testing, sleeping, returned, roused, woken, asleep, Worker, waiting, writing, reporting,
  ended, TransferWriter, new,
}

-- Who sleeps in `flush` waits for a revision.
abbrev pub FlusherFits : ℕ → ℕ → Flusher → Type 0
FlusherFits requested completed testing = Unit
FlusherFits requested completed sleeping = completed < requested
FlusherFits requested completed (returned error) = Unit

-- After a notification nobody sleeps.
pub map-roused :
    (requested completed : ℕ) (fs : List Flusher)
    → All (FlusherFits requested completed) (map roused fs)
unfolding roused
map-roused requested completed [] = tt
map-roused requested completed (testing ∷ fs) = (tt, map-roused requested completed fs)
map-roused requested completed (sleeping ∷ fs) = (tt, map-roused requested completed fs)
map-roused requested completed (returned e ∷ fs) = (tt, map-roused requested completed fs)

pub update_at-fits :
    (requested completed : ℕ) (f : Flusher → Flusher)
    → ((x : Flusher) → FlusherFits requested completed x → FlusherFits requested completed (f x))
    → (fs : List Flusher) (i : ℕ) → All (FlusherFits requested completed) fs
    → All (FlusherFits requested completed) (update_at fs i f)
update_at-fits requested completed f k [] i h = tt
update_at-fits requested completed f k (x ∷ fs) zero (h, hs) = (k x h, hs)
update_at-fits requested completed f k (x ∷ fs) (suc i) (h, hs) =
    (h, update_at-fits requested completed f k fs i hs)

pub roused-fits :
    (requested completed : ℕ) (x : Flusher)
    → FlusherFits requested completed x
    → FlusherFits requested completed (roused x)
unfolding roused
roused-fits requested completed testing h = tt
roused-fits requested completed sleeping h = tt
roused-fits requested completed (returned e) h = tt

module _ {A : Type 0} where
  -- The snapshot of a revision: if it is the newest revision, the newest snapshot.
  abbrev pub IsRevision : List A → ℕ → ℕ → A → Type 0
  IsRevision submitted requested revision store =
      (1 ≤ revision)
      × (revision ≤ requested)
      × (revision ≡ requested → get_elem? submitted 0 ≡ some store)

  abbrev pub PendingFits : List A → ℕ → Option (ℕ × A) → Type 0
  PendingFits submitted requested none = Unit
  PendingFits submitted requested (some (revision, store)) =
      (revision ≡ requested) × (1 ≤ requested) × (get_elem? submitted 0 ≡ some store)

  -- What is left to do: with nothing pending, the last revision is written or is being written.
  abbrev pub WorkerFits : List A → ℕ → ℕ → Option (ℕ × A) → Worker A → Type 0
  WorkerFits submitted requested completed none (writing revision store) =
      IsRevision submitted requested revision store × (revision ≡ requested)
  WorkerFits submitted requested completed (some p) (writing revision store) =
      IsRevision submitted requested revision store
  WorkerFits submitted requested completed none waiting = completed ≡ requested
  WorkerFits submitted requested completed none asleep = completed ≡ requested
  WorkerFits submitted requested completed none (reporting e) = completed ≡ requested
  WorkerFits submitted requested completed none ended = completed ≡ requested
  WorkerFits submitted requested completed (some p) ended = ⊥
  WorkerFits submitted requested completed (some p) asleep = ⊥
  WorkerFits submitted requested completed (some p) waiting = Unit
  WorkerFits submitted requested completed (some p) (reporting e) = Unit

  -- The last write is the revision that is completed, and its outcome is the error.
  abbrev pub WrittenFits : List A → ℕ → ℕ → Option Bytes → List (ℕ × A × Option Bytes) → Type 0
  WrittenFits submitted requested completed error [] = (completed ≡ 0) × (error ≡ none)
  WrittenFits submitted requested completed error ((revision, store, failure) ∷ rest) =
      (revision ≡ completed) × (failure ≡ error) × IsRevision submitted requested revision store

  abbrev pub EndedFits : Worker A → Bool → Type 0
  EndedFits ended closed = closed ≡ true
  EndedFits waiting closed = Unit
  EndedFits asleep closed = closed ≡ false
  EndedFits (writing r s) closed = Unit
  EndedFits (reporting e) closed = Unit

  pub record Valid (w : TransferWriter A) : Type 0 where
    pub pending : PendingFits w.submitted w.state.requested w.state.pending
    pub worker : WorkerFits w.submitted w.state.requested w.state.completed w.state.pending w.worker
    pub written :
        WrittenFits w.submitted w.state.requested w.state.completed w.state.error w.written
    pub at_end : EndedFits w.worker w.state.closed
    pub flushers : All (FlusherFits w.state.requested w.state.completed) w.flushers

  pub new-Valid : Valid new
  unfolding new
  new-Valid = record {
    pending = tt;
    worker = refl;
    written = (refl, refl);
    at_end = tt;
    flushers = tt;
  }

  pub woken-fits :
      (submitted : List A) (requested completed : ℕ) (p : Option (ℕ × A)) (k : Worker A)
      → WorkerFits submitted requested completed p k
      → WorkerFits submitted requested completed p (woken k)
  unfolding woken
  woken-fits submitted requested completed none waiting f = f
  woken-fits submitted requested completed none asleep f = f
  woken-fits submitted requested completed none (writing r s) f = f
  woken-fits submitted requested completed none (reporting e) f = f
  woken-fits submitted requested completed none ended f = f
  woken-fits submitted requested completed (some p) waiting f = f
  woken-fits submitted requested completed (some p) asleep f = tt
  woken-fits submitted requested completed (some p) (writing r s) f = f
  woken-fits submitted requested completed (some p) (reporting e) f = f
  woken-fits submitted requested completed (some p) ended f = f

  pub woken-EndedFits :
      (k : Worker A) (closed : Bool) → EndedFits k closed → EndedFits (woken k) closed
  unfolding woken
  woken-EndedFits waiting closed e = tt
  woken-EndedFits asleep closed e = tt
  woken-EndedFits (writing r s) closed e = tt
  woken-EndedFits (reporting x) closed e = tt
  woken-EndedFits ended closed e = e

  -- A revision stays one when a newer one is submitted.
  pub older :
      (submitted : List A) (requested revision : ℕ) (store newer : A)
      → IsRevision submitted requested revision store
      → IsRevision (newer ∷ submitted) (requested + 1) revision store
  older submitted requested revision store newer (a, b, c) =
      (a, omega arith, λ e. absurd (omega arith))
