-- ===== src/SearchGovernor/Priority.antt =====
-- Which lane search_governor.rs serves.
use forever.Prelude.{
  ℕ, ◌≡◌, refl, ◌⊎◌, inl, inr, ◌∙◌, true, false, Option, none, some, List, [], ◌∷◌, ◌++◌, All, ap,
  sym, subst, Bool-cases,
}
use forever.SearchGovernor.{
  Budget, SearchLane, ready, sent, take_among, take_next, offered, priority,
}

module _ {ℓ κ} {σ : Type ℓ} {A : Type κ} (pending : σ → SearchLane → σ × Option A) where
  -- The lane may not send, or has nothing to send.
  abbrev pub Passed : Budget → ℕ → σ → SearchLane → Type κ
  Passed b now q lane = (ready b lane now ≡ false) ⊎ ((pending q lane).1 ≡ none)

  -- The choice: no lane, with all of them passed over and nothing changed, or the first one that
  -- is not passed over, with its request; it alone is asked to give one up, and its send is
  -- recorded.
  abbrev pub Chosen :
      Budget → ℕ → List SearchLane → σ → Option (SearchLane × A) × (σ × Budget) → Type (ℓ ⊔ κ)
  Chosen b now lanes q (none, (q', b')) = All (Passed b now q) lanes × ((q' ≡ q) × (b' ≡ b))
  Chosen b now lanes q (some (lane, request), (q', b')) =
      (before : List SearchLane) × (after : List SearchLane) × ((lanes ≡ before ++ (lane ∷ after))
        × (All (Passed b now q) before
            × ((ready b lane now ≡ true)
                × ((pending q lane ≡ (q', some request)) × (b' ≡ sent b lane now)))))

  skip :
      (b : Budget) (now : ℕ) (lane : SearchLane) (lanes : List SearchLane) (q : σ)
      (res : Option (SearchLane × A) × (σ × Budget))
      → Passed b now q lane
      → Chosen b now lanes q res
      → Chosen b now (lane ∷ lanes) q res
  skip b now lane lanes q (none, (q', b')) passed (all_passed, same) = ((passed, all_passed), same)
  skip b now lane lanes q (some (served, request), (q', b')) passed
        (before, after, (e, (others, rest))) =
      (lane ∷ before, after, (ap (λ r. lane ∷ r) e, ((passed, others), rest)))

  module _
      (idle : (q : σ) (lane : SearchLane)
        → (pending q lane).1 ≡ none
        → (pending q lane).0 ≡ q) where
    choose :
        (b : Budget) (now : ℕ) (lane : SearchLane) (lanes : List SearchLane) (q : σ)
        (rest : σ → Option (SearchLane × A) × (σ × Budget))
        → ready b lane now ≡ true
        → Chosen b now lanes q (rest q)
        → (p : σ × Option A) → pending q lane ≡ p
        → Chosen b now (lane ∷ lanes) q (offered lane now b rest p)
    unfolding offered
    choose b now lane lanes q rest open_slot chosen (q', none) e =
        let nothing : (pending q lane).1 ≡ none = ap (λ p. p.1) e in
        let same : q ≡ q' = sym (idle q lane nothing) ∙ ap (λ p. p.0) e in
        subst (λ s. Chosen b now (lane ∷ lanes) q (rest s)) same
          (skip b now lane lanes q (rest q) (inr nothing) chosen)
    choose b now lane lanes q rest open_slot chosen (q', some request) e =
        ([], lanes, (refl, (tt, (open_slot, (e, refl)))))

    take_among-Chosen :
        (b : Budget) (now : ℕ) (lanes : List SearchLane) (q : σ)
        → Chosen b now lanes q (take_among pending now b lanes q)
    unfolding take_among
    take_among-Chosen b now [] q = (tt, (refl, refl))
    take_among-Chosen b now (lane ∷ lanes) q =
        let chosen = take_among-Chosen b now lanes q in
        elim (Bool-cases (ready b lane now)) [
          | inr closed ↦ rw closed (skip b now lane lanes q _ (inl closed) chosen)
          | inl open_slot ↦
              rw open_slot (choose b now lane lanes q _ open_slot chosen (pending q lane) refl)
        ]

    -- `take_next` serves the first lane of the order User, Relay, Radar, Wanted that may send and
    -- has a search waiting, and records that send; if no lane is so, it returns none and changes
    -- neither the queues nor the budget. The condition: the closure leaves the queues as they are
    -- when it finds nothing in a lane.
    pub take_next-Chosen :
        (b : Budget) (now : ℕ) (q : σ) → Chosen b now priority q (take_next pending now b q)
    unfolding take_next
    take_next-Chosen b now q = take_among-Chosen b now priority q
