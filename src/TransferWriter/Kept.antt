-- ===== src/TransferWriter/Kept.antt =====
-- Every step of transfer_writer.rs keeps the invariant.
use forever.Prelude.{
  ℕ, ◌+◌, map, update_at, ◌≡◌, refl, Bool, true, false, Option, none, some, List, [], ◌∷◌, ltb,
  if◌then◌else◌, arith,
}
use forever.Bytes.{Bytes}
use forever.TransferWriter.{
  Flusher, testing, sleeping, returned, roused, woken, notify_all, look, asleep, Worker, waiting,
  writing, reporting, ended, TransferWriter, differs, submit, close, work, work_from, flush,
}
use forever.TransferWriter.Valid.{
  FlusherFits, map-roused, update_at-fits, IsRevision, WorkerFits, WrittenFits, EndedFits, Valid,
  woken-fits, woken-EndedFits, older,
}

module _ {A : Type 0} where
  pub submit-Valid :
      (store : A) (w : TransferWriter A) → w.state.closed ≡ false → Valid w → Valid (submit store w)
  unfolding submit notify_all woken
  submit-Valid store w running h = record {
    pending = (refl, omega arith, refl);
    worker = worker w.worker w.state.pending h.worker h.at_end;
    written = written w.written h.written;
    at_end = woken-EndedFits w.worker w.state.closed h.at_end;
    flushers = map-roused (w.state.requested + 1) w.state.completed w.flushers;
  }
    where
      worker :
          (k : Worker A) (p : Option (ℕ × A))
          → WorkerFits w.submitted w.state.requested w.state.completed p k
          → EndedFits k w.state.closed
          → WorkerFits
              (store ∷ w.submitted)
              (w.state.requested + 1)
              w.state.completed
              (some (w.state.requested + 1, store))
              (woken k)
      worker waiting p f e = tt
      worker asleep p f e = tt
      worker (reporting x) p f e = tt
      worker ended p f e = absurd cc
      worker (writing r s) none f e = older w.submitted w.state.requested r s store f.0
      worker (writing r s) (some p) f e = older w.submitted w.state.requested r s store f

      written :
          (l : List (ℕ × A × Option Bytes))
          → WrittenFits w.submitted w.state.requested w.state.completed w.state.error l
          → WrittenFits
              (store ∷ w.submitted)
              (w.state.requested + 1)
              w.state.completed
              w.state.error
              l
      written [] f = f
      written ((r, s, x) ∷ l) (a, b, c) = (a, b, older w.submitted w.state.requested r s store c)

  pub close-Valid : (w : TransferWriter A) → Valid w → Valid (close w)
  unfolding close notify_all woken
  close-Valid w h = record {
    pending = h.pending;
    worker =
        woken-fits w.submitted w.state.requested w.state.completed w.state.pending w.worker
          h.worker;
    written = h.written;
    at_end = shut w.worker;
    flushers = map-roused w.state.requested w.state.completed w.flushers;
  }
    where
      shut : (k : Worker A) → EndedFits (woken k) true
      shut waiting = tt
      shut asleep = tt
      shut (writing r s) = tt
      shut (reporting e) = tt
      shut ended = refl

  -- The invariant with the worker and what is pending apart from the rest of the state.
  abbrev with_worker : TransferWriter A → Worker A → Option (ℕ × A) → TransferWriter A
  with_worker w k p = record w { worker = k; state = record w.state { pending = p } }

  pub work_from-Valid :
      (k : Worker A) (p : Option (ℕ × A)) (failure : Option Bytes) (w : TransferWriter A)
      → Valid (with_worker w k p)
      → Valid (work_from k p failure (with_worker w k p))
  unfolding work_from notify_all
  work_from-Valid waiting none failure w h = go w.state.closed refl
    where
      go :
          (b : Bool) → w.state.closed ≡ b → Valid (with_worker w (if b then ended else asleep) none)
      go true e = record {
        pending = tt;
        worker = h.worker;
        written = h.written;
        at_end = e;
        flushers = h.flushers;
      }
      go false e = record {
        pending = tt;
        worker = h.worker;
        written = h.written;
        at_end = e;
        flushers = h.flushers;
      }
  work_from-Valid asleep p failure w h = h
  work_from-Valid waiting (some (revision, store)) failure w h =
      let (same, first, newest) = h.pending in
      record {
        pending = tt;
        worker = ((omega arith, omega arith, λ e. newest), same);
        written = h.written;
        at_end = tt;
        flushers = h.flushers;
      }
  work_from-Valid (writing revision store) p failure w h = go (differs w.state.error failure)
    where
      w' : Bool → TransferWriter A
      w' b = record (with_worker w (writing revision store) p) {
        state = record w.state { pending = p; error = failure; completed = revision };
        worker = if b then reporting failure else waiting;
        flushers = map roused w.flushers;
        written = (revision, store, failure) ∷ w.written;
      }

      revision_of :
          (o : Option (ℕ × A))
          → WorkerFits w.submitted w.state.requested w.state.completed o (writing revision store)
          → IsRevision w.submitted w.state.requested revision store
      revision_of none f = f.0
      revision_of (some q) f = f

      done :
          (o : Option (ℕ × A)) (b : Bool)
          → WorkerFits w.submitted w.state.requested w.state.completed o (writing revision store)
          → WorkerFits w.submitted w.state.requested revision o
              (if b then reporting failure else waiting)
      done none true f = f.1
      done none false f = f.1
      done (some q) true f = tt
      done (some q) false f = tt

      not_ended :
          (b : Bool) → EndedFits {A = A} (if b then reporting failure else waiting) w.state.closed
      not_ended true = tt
      not_ended false = tt

      go : (b : Bool) → Valid (w' b)
      go b = record {
        pending = h.pending;
        worker = done p b h.worker;
        written = (refl, refl, revision_of p h.worker);
        at_end = not_ended b;
        flushers = map-roused w.state.requested revision w.flushers;
      }
  work_from-Valid (reporting e) p failure w h = record {
    pending = h.pending;
    worker = reported p h.worker;
    written = h.written;
    at_end = tt;
    flushers = h.flushers;
  }
    where
      reported :
          (o : Option (ℕ × A))
          → WorkerFits w.submitted w.state.requested w.state.completed o (reporting e)
          → WorkerFits w.submitted w.state.requested w.state.completed o waiting
      reported none f = f
      reported (some q) f = tt
  work_from-Valid ended p failure w h = h

  pub work-Valid :
      (failure : Option Bytes) (w : TransferWriter A) → Valid w → Valid (work failure w)
  unfolding work
  work-Valid failure w h = work_from-Valid w.worker w.state.pending failure w h

  pub calls-Valid :
      (w : TransferWriter A) → Valid w → Valid (record w { flushers = testing ∷ w.flushers })
  calls-Valid w h = record {
    pending = h.pending;
    worker = h.worker;
    written = h.written;
    at_end = h.at_end;
    flushers = (tt, h.flushers);
  }

  pub flushers-Valid :
      (w : TransferWriter A) (f : Flusher → Flusher) (i : ℕ)
      → ((x : Flusher)
          → FlusherFits w.state.requested w.state.completed x
          → FlusherFits w.state.requested w.state.completed (f x))
      → Valid w
      → Valid (record w { flushers = update_at w.flushers i f })
  flushers-Valid w f i k h = record {
    pending = h.pending;
    worker = h.worker;
    written = h.written;
    at_end = h.at_end;
    flushers = update_at-fits w.state.requested w.state.completed f k w.flushers i h.flushers;
  }

  pub woken-Valid : (w : TransferWriter A) → Valid w → Valid (record w { worker = woken w.worker })
  woken-Valid w h = record {
    pending = h.pending;
    worker =
        woken-fits w.submitted w.state.requested w.state.completed w.state.pending w.worker
          h.worker;
    written = h.written;
    at_end = woken-EndedFits w.worker w.state.closed h.at_end;
    flushers = h.flushers;
  }

  pub look-fits :
      (w : TransferWriter A) (x : Flusher)
      → FlusherFits w.state.requested w.state.completed x
      → FlusherFits w.state.requested w.state.completed (look w x)
  unfolding look flush
  look-fits w testing h = go (ltb w.state.completed w.state.requested) refl
    where
      go :
          (b : Bool)
          → ltb w.state.completed w.state.requested ≡ b
          → FlusherFits w.state.requested w.state.completed
              (elim (if b then none else some w.state.error) [
                | none ↦ sleeping
                | some error ↦ returned error
              ])
      go true e = ground (arith, e)
      go false e = tt
  look-fits w sleeping h = h
  look-fits w (returned e) h = h
