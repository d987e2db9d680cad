-- ===== src/TransferWriter/Progress.antt =====
-- The worker of transfer_writer.rs catches up: whoever waits in `flush` is answered.
use forever.Prelude.{
  ℕ, suc, ◌-◌, ◌≤◌, ◌≡◌, refl, ap, sym, subst, ◌∙◌, All, map, Bool, true, false, Option, none, some,
  List, [], ◌∷◌, length, if◌then◌else◌, arith,
}
use forever.Bytes.{Bytes}
use forever.TransferWriter.{
  Flusher, testing, sleeping, returned, roused, notify_all, look, asleep, Worker, waiting, writing,
  reporting, ended, TransferWriter, differs, work, work_from, flush, works, Reachable, next,
}
use forever.TransferWriter.Valid.{FlusherFits, WorkerFits}
use forever.TransferWriter.Invariant.{Reachable-Valid}

abbrev pub IsReturned : Flusher → Type 0
IsReturned testing = ⊥
IsReturned sleeping = ⊥
IsReturned (returned error) = Unit

-- No call gets lost.
length-map-roused : (fs : List Flusher) → length (map roused fs) ≡ length fs
length-map-roused [] = refl
length-map-roused (f ∷ fs) = ap suc (length-map-roused fs)

module _ {A : Type 0} where
  -- The worker's next turns, with the outcome of each write.
  abbrev pub work_all : List (Option Bytes) → TransferWriter A → TransferWriter A
  work_all [] w = w
  work_all (failure ∷ failures) w = work_all failures (work failure w)

  -- How many turns the worker needs.
  abbrev turns : Worker A → Option (ℕ × A) → ℕ
  turns (writing r s) none = 1
  turns (writing r s) (some p) = 4
  turns (reporting e) none = 0
  turns (reporting e) (some p) = 3
  turns waiting none = 0
  turns asleep p = 0
  turns waiting (some p) = 2
  turns ended p = 0

  abbrev left : TransferWriter A → ℕ
  left w = turns w.worker w.state.pending

  left-work_from :
      (k : Worker A) (p : Option (ℕ × A)) (failure : Option Bytes) (w : TransferWriter A)
      → w.worker ≡ k
      → w.state.pending ≡ p
      → left (work_from k p failure w) ≤ turns k p - 1
  unfolding work_from notify_all
  left-work_from waiting none failure w e f = go w.state.closed
    where
      go : (b : Bool) → turns (if b then ended else asleep) w.state.pending ≤ 0
      go true = omega arith
      go false = omega arith
  left-work_from asleep p failure w e f = rw e (omega arith)
  left-work_from waiting (some (r, s)) failure w e f = omega arith
  left-work_from (writing r s) none failure w e f = go (differs w.state.error failure)
    where
      go : (b : Bool) → turns (if b then reporting failure else waiting) w.state.pending ≤ 0
      go true = rw f (omega arith)
      go false = rw f (omega arith)
  left-work_from (writing r s) (some p) failure w e f = go (differs w.state.error failure)
    where
      go : (b : Bool) → turns (if b then reporting failure else waiting) w.state.pending ≤ 3
      go true = rw f (omega arith)
      go false = rw f (omega arith)
  left-work_from (reporting x) none failure w e f = rw f (omega arith)
  left-work_from (reporting x) (some p) failure w e f = rw f (omega arith)
  left-work_from ended p failure w e f = rw e (omega arith)

  left-work : (failure : Option Bytes) (w : TransferWriter A) → left (work failure w) ≤ left w - 1
  unfolding work
  left-work failure w = left-work_from w.worker w.state.pending failure w refl refl

  -- With nothing left to do the revisions agree.
  none_left :
      (k : Worker A) (p : Option (ℕ × A)) (w : TransferWriter A)
      → WorkerFits w.submitted w.state.requested w.state.completed p k
      → turns k p ≡ 0
      → w.state.completed ≡ w.state.requested
  none_left waiting none w f e = f
  none_left (reporting x) none w f e = f
  none_left ended none w f e = f
  none_left asleep none w f e = f
  none_left asleep (some p) w f e = absurd f
  none_left ended (some p) w f e = absurd f
  none_left waiting (some p) w f e = absurd (omega arith)
  none_left (reporting x) (some p) w f e = absurd (omega arith)
  none_left (writing r s) none w f e = absurd (omega arith)
  none_left (writing r s) (some p) w f e = absurd (omega arith)

  work_all-Reachable :
      (failures : List (Option Bytes)) (w : TransferWriter A)
      → Reachable w
      → Reachable (work_all failures w)
  work_all-Reachable [] w r = r
  work_all-Reachable (failure ∷ failures) w r =
      work_all-Reachable failures (work failure w) (next r (works failure))

  caught_up :
      (failures : List (Option Bytes)) (w : TransferWriter A)
      → Reachable w
      → left w ≤ length failures
      → (work_all failures w).state.completed ≡ (work_all failures w).state.requested
  caught_up [] w r h =
      none_left w.worker w.state.pending w (Reachable-Valid w r).worker (omega arith)
  caught_up (failure ∷ failures) w r h =
      caught_up failures (work failure w) (next r (works failure))
        (omega (arith, left-work failure w))

  at_most_four : (k : Worker A) (p : Option (ℕ × A)) → turns k p ≤ 4
  at_most_four (writing r s) none = omega arith
  at_most_four (writing r s) (some p) = omega arith
  at_most_four (reporting e) none = omega arith
  at_most_four (reporting e) (some p) = omega arith
  at_most_four waiting none = omega arith
  at_most_four waiting (some p) = omega arith
  at_most_four ended p = omega arith
  at_most_four asleep p = omega arith

  length-work_from :
      (k : Worker A) (p : Option (ℕ × A)) (failure : Option Bytes) (w : TransferWriter A)
      → length (work_from k p failure w).flushers ≡ length w.flushers
  unfolding work_from notify_all
  length-work_from waiting none failure w = refl
  length-work_from waiting (some (r, s)) failure w = refl
  length-work_from asleep p failure w = refl
  length-work_from (writing r s) p failure w = length-map-roused w.flushers
  length-work_from (reporting e) p failure w = refl
  length-work_from ended p failure w = refl

  length-work_all :
      (failures : List (Option Bytes)) (w : TransferWriter A)
      → length (work_all failures w).flushers ≡ length w.flushers
  unfolding work
  length-work_all [] w = refl
  length-work_all (failure ∷ failures) w =
      length-work_all failures (work failure w)
      ∙ length-work_from w.worker w.state.pending failure w

  -- When the revisions agree nobody sleeps, so who looks again returns.
  look-IsReturned :
      (w : TransferWriter A) (fs : List Flusher)
      → w.state.completed ≡ w.state.requested
      → flush w ≡ some w.state.error
      → All (FlusherFits w.state.requested w.state.completed) fs
      → All IsReturned (map (look w) fs)
  unfolding look
  look-IsReturned w [] e h fits = tt
  look-IsReturned w (testing ∷ fs) e h (fit, fits) = (
    subst (λ o. IsReturned (elim o [ none ↦ sleeping | some error ↦ returned error ])) (sym h) tt,
    look-IsReturned w fs e h fits,
  )
  look-IsReturned w (sleeping ∷ fs) e h (fit, fits) = absurd (omega (arith, e, fit))
  look-IsReturned w (returned x ∷ fs) e h (fit, fits) = (tt, look-IsReturned w fs e h fits)

  -- Whoever waits in `flush` is answered. From every reachable state, after any four or more turns
  -- of the worker in which nothing new is submitted, however the writes turn out, the condition of
  -- `flush` lets it return, no call of it is lost, and none is left asleep on the condition
  -- variable: each one returns when it looks again.
  pub flush-returns :
      (failures : List (Option Bytes)) (w : TransferWriter A)
      → Reachable w
      → 4 ≤ length failures
      → (flush (work_all failures w) ≡ some (work_all failures w).state.error)
        × (length (work_all failures w).flushers ≡ length w.flushers)
        × All IsReturned (map (look (work_all failures w)) (work_all failures w).flushers)
  unfolding flush
  flush-returns failures w r enough =
      let e = caught_up failures w r (omega (arith, at_most_four w.worker w.state.pending)) in
      let answer : flush (work_all failures w) ≡ some (work_all failures w).state.error =
        ground (arith, e) in
      (
        answer,
        length-work_all failures w,
        look-IsReturned (work_all failures w) (work_all failures w).flushers e answer
            (Reachable-Valid (work_all failures w) (work_all-Reachable failures w r)).flushers,
      )
