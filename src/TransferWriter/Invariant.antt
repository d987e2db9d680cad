-- ===== src/TransferWriter/Invariant.antt =====
-- In every state that transfer_writer.rs can reach the invariant holds, and `flush` tells the outcome
-- of the newest snapshot.
use forever.Prelude.{
  ℕ, ◌≤◌, ◌≡◌, refl, sym, ◌∙◌, Bool, true, false, Option, none, some, List, [], ◌∷◌, get_elem?, ltb,
  if◌then◌else◌, arith,
}
use forever.Bytes.{Bytes}
use forever.UploadPolicy.Waiting.{some_inj}
use forever.TransferWriter.{
  roused, look, calls, looks, stirs, stirs_worker, TransferWriter, flush, submits, drops, works,
  Reachable, start, next,
}
use forever.TransferWriter.Valid.{roused-fits, WrittenFits, Valid, new-Valid}
use forever.TransferWriter.Kept.{
  submit-Valid, close-Valid, work-Valid, calls-Valid, flushers-Valid, woken-Valid, look-fits,
}

module _ {A : Type 0} where
  pub Reachable-Valid : (w : TransferWriter A) → Reachable w → Valid w
  Reachable-Valid _ start = new-Valid
  Reachable-Valid _ (next {w} r (submits store e)) = submit-Valid store w e (Reachable-Valid w r)
  Reachable-Valid _ (next {w} r drops) = close-Valid w (Reachable-Valid w r)
  Reachable-Valid _ (next {w} r calls) = calls-Valid w (Reachable-Valid w r)
  Reachable-Valid _ (next {w} r (looks i)) =
      flushers-Valid w (look w) i (look-fits w) (Reachable-Valid w r)
  Reachable-Valid _ (next {w} r (stirs i)) =
      flushers-Valid w roused i (roused-fits w.state.requested w.state.completed)
        (Reachable-Valid w r)
  Reachable-Valid _ (next {w} r stirs_worker) = woken-Valid w (Reachable-Valid w r)
  Reachable-Valid _ (next {w} r (works failure)) = work-Valid failure w (Reachable-Valid w r)

  -- What `flush` says of the last write.
  abbrev pub Flushed : TransferWriter A → List (ℕ × A × Option Bytes) → Option Bytes → Type 0
  Flushed w [] error = (error ≡ none) × (w.state.requested ≡ 0)
  Flushed w ((revision, store, failure) ∷ rest) error =
      (failure ≡ error) × (revision ≡ w.state.requested) × (get_elem? w.submitted 0 ≡ some store)

  -- In every reachable state in which `flush` returns, the last write was that of the newest
  -- snapshot, whatever was submitted while others were written, and the error that `flush` returns
  -- is the outcome of that write; only if nothing was ever submitted is there no write, and then
  -- no error.
  pub flush-Flushed :
      (w : TransferWriter A) (error : Option Bytes)
      → Reachable w
      → flush w ≡ some error
      → Flushed w w.written error
  unfolding flush
  flush-Flushed w error r h = go (ltb w.state.completed w.state.requested) refl h
    where
      last :
          (l : List (ℕ × A × Option Bytes))
          → w.state.requested ≤ w.state.completed
          → w.state.error ≡ error
          → w.state.completed ≤ w.state.requested
          → WrittenFits w.submitted w.state.requested w.state.completed w.state.error l
          → Flushed w l error
      last [] a e c f = (sym e ∙ f.1, omega arith)
      last ((revision, store, failure) ∷ l) a e c (at, out, (x, y, z)) =
          (out ∙ e, omega arith, z (omega arith))

      within :
          (l : List (ℕ × A × Option Bytes))
          → WrittenFits w.submitted w.state.requested w.state.completed w.state.error l
          → w.state.completed ≤ w.state.requested
      within [] f = omega arith
      within ((revision, store, failure) ∷ l) (at, out, (x, y, z)) = omega arith

      go :
          (b : Bool)
          → ltb w.state.completed w.state.requested ≡ b
          → (if b then none else some w.state.error) ≡ some error
          → Flushed w w.written error
      go true e f = absurd cc
      go false e f =
          last w.written (ground arith) (some_inj w.state.error error f)
            (within w.written (Reachable-Valid w r).written) (Reachable-Valid w r).written
