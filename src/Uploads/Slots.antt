-- ===== src/Uploads/Slots.antt =====
-- `activate_next` of uploads.rs as a whole.
use forever.Prelude.{
  ℕ, ◌<◌, ◌≡◌, refl, sym, subst, Bool, true, false, Option, none, some, List, get_elem?, arith, leb,
  if◌then◌else◌,
}
use forever.Uploads.Types.{UploadSnapshot, is_queued}
use forever.UploadPolicy.{FairScheduler, take_next}
use forever.UploadPolicy.Fair.{Outcome, take_next-Outcome}
use forever.UploadPolicy.Ranks.{chosen_waits}
use forever.Uploads.Hub.{UploadHub, Saving, count, is_active}
use forever.Uploads.Operations.{activate, activate_at, activate_next}
use forever.Uploads.Preserved.{IsValid}
use forever.Uploads.Activates.{Activation, Activated, activate-Valid, activate-Activated}

none-same :
    (s : FairScheduler) (us : List UploadSnapshot)
    → (take_next s us).0 ≡ none
    → (take_next s us).1 ≡ s
none-same s us e = go (take_next s us) (take_next-Outcome s us) e
  where
    go : (r : Option ℕ × FairScheduler) → Outcome s us r → r.0 ≡ none → r.1 ≡ s
    go (none, s') h e = h.1
    go (some j, s') h e = absurd cc

module _ (hub : UploadHub) (connection_token slots now : ℕ) (saving : Saving) where
  abbrev chosen : UploadHub
  chosen = record hub { scheduler = (take_next hub.scheduler hub.uploads).1 }

  -- What holds of every branch of `activate_next`.
  activate_next_branches {κ} :
      (P : Activation → Type κ)
      → P (none, hub)
      → ((i : ℕ) (u : UploadSnapshot)
          → get_elem? hub.uploads i ≡ some u
          → is_queued u.status ≡ true
          → count is_active hub.uploads < slots
          → P (activate chosen hub.scheduler.served i u connection_token now saving))
      → P (activate_next hub connection_token slots now saving)
  unfolding activate_next activate_at
  activate_next_branches P nothing chosen_one = full (leb slots (count is_active hub.uploads)) refl
    where
      at : Option ℕ → Activation
      at o = activate_at chosen hub.scheduler.served o connection_token now saving

      found : ℕ → Option UploadSnapshot → Activation
      found i o = elim o [
        | none ↦ (none, chosen)
        | some u ↦ activate chosen hub.scheduler.served i u connection_token now saving
      ]

      stay : (take_next hub.scheduler hub.uploads).0 ≡ none → P (none, chosen)
      stay e =
          subst (λ s. P (none, record hub { scheduler = s }))
            (sym (none-same hub.scheduler hub.uploads e)) nothing

      next :
          (o : Option ℕ)
          → (take_next hub.scheduler hub.uploads).0 ≡ o
          → count is_active hub.uploads < slots
          → P (at o)
      next none e room = stay e
      next (some i) e room =
          let h = chosen_waits hub.scheduler hub.uploads i e in
          subst (λ o. P (found i o)) (sym h.1) (chosen_one i h.0 h.1 h.2 room)

      full :
          (b : Bool)
          → leb slots (count is_active hub.uploads) ≡ b
          → P (if b then (none, hub) else at (take_next hub.scheduler hub.uploads).0)
      full true e = nothing
      full false e = next (take_next hub.scheduler hub.uploads).0 refl (ground arith)

  pub activate_next-Valid :
      IsValid hub → IsValid (activate_next hub connection_token slots now saving).1
  activate_next-Valid h =
      activate_next_branches (λ r. IsValid r.1) h
        (λ i u f w room.
          activate-Valid chosen connection_token now saving hub.scheduler.served i u f w h)

  -- If `activate_next` gives a ticket, exactly one more upload is active and not more than there
  -- are slots; if it gives none, because the slots are full, nothing waits or the queue could not
  -- be saved, the uploads but for their positions and the users served in the round are what they
  -- were.
  pub activate_next-Activated :
      Activated hub slots (activate_next hub connection_token slots now saving)
  activate_next-Activated =
      activate_next_branches (Activated hub slots) (refl, refl)
        (λ i u f w room.
          activate-Activated chosen connection_token now saving slots hub i u f w room refl)
