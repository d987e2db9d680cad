-- ===== src/UploadPolicy/Ranks.antt =====
-- The loop of `refresh_positions`: it ends by itself, and numbers the queue in the order in which
-- `take_next` serves it.
use forever.Prelude.{
  ℕ, zero, suc, ◌+◌, ◌≤◌, ◌≡◌, ◌≢◌, refl, ap, sym, subst, ◌∙◌, inl, inr, true, false, Option, none,
  some, List, [], ◌∷◌, length, update_at, get_elem?, arith, Option-cases,
}
use forever.Uploads.Types.{UploadSnapshot, UploadStatus, is_queued}
use forever.UploadPolicy.{FairScheduler, take_next, positions_from}
use forever.UploadPolicy.Waiting.{some_inj}
use forever.UploadPolicy.Fair.{queue, Outcome, take_next-Outcome}

abbrev pub connect : UploadSnapshot → UploadSnapshot
connect u = record u { status = UploadStatus.connecting }

abbrev pub rank : ℕ → UploadSnapshot → UploadSnapshot
rank position u = record u { queue_position = some position }

-- An upload that is chosen is queued.
pub chosen_waits :
    (s : FairScheduler) (us : List UploadSnapshot) (i : ℕ)
    → (take_next s us).0 ≡ some i
    → (u : UploadSnapshot) × (get_elem? us i ≡ some u) × (is_queued u.status ≡ true)
chosen_waits s us i e = go (take_next s us) (take_next-Outcome s us) e
  where
    go :
        (r : Option ℕ × FairScheduler)
        → Outcome s us r
        → r.0 ≡ some i
        → (u : UploadSnapshot) × (get_elem? us i ≡ some u) × (is_queued u.status ≡ true)
    go (none, s') h e = cc
    go (some j, s') h e =
        let at : j ≡ i = some_inj j i e in
        (
          h.queued.upload,
          subst (λ k. get_elem? us k ≡ some h.queued.upload) at h.queued.found,
          h.queued.waits,
        )

-- Nothing is chosen only from an empty queue.
pub none_waits :
    (s : FairScheduler) (us : List UploadSnapshot) → (take_next s us).0 ≡ none → queue us ≡ []
none_waits s us e = go (take_next s us) (take_next-Outcome s us) e
  where
    go : (r : Option ℕ × FairScheduler) → Outcome s us r → r.0 ≡ none → queue us ≡ []
    go (none, s') h e = h.0
    go (some j, s') h e = cc

pub length-queue-connect :
    (us : List UploadSnapshot) (i : ℕ) (u : UploadSnapshot)
    → get_elem? us i ≡ some u
    → is_queued u.status ≡ true
    → length (queue (update_at us i connect)) + 1 ≡ length (queue us)
length-queue-connect [] i u e q = absurd cc
length-queue-connect (v ∷ us) zero u e q =
    let same : v ≡ u = some_inj v u e in
    let waits : is_queued v.status ≡ true = rw same q in ground (arith, waits)
length-queue-connect (v ∷ us) (suc i) u e q = ground (arith, length-queue-connect us i u e q)

pub get_elem?-update_at_other {ℓ} :
    {A : Type ℓ} (us : List A) (i j : ℕ) (f : A → A)
    → i ≢ j
    → get_elem? (update_at us j f) i ≡ get_elem? us i
get_elem?-update_at_other [] i j f h = refl
get_elem?-update_at_other (u ∷ us) zero zero f h = absurd (h refl)
get_elem?-update_at_other (u ∷ us) zero (suc j) f h = refl
get_elem?-update_at_other (u ∷ us) (suc i) zero f h = refl
get_elem?-update_at_other (u ∷ us) (suc i) (suc j) f h =
    get_elem?-update_at_other us i j f (λ e. h (ap suc e))

pub get_elem?-update_at {ℓ} :
    {A : Type ℓ} (us : List A) (i : ℕ) (f : A → A) (u : A)
    → get_elem? us i ≡ some u
    → get_elem? (update_at us i f) i ≡ some (f u)
get_elem?-update_at [] i f u h = absurd cc
get_elem?-update_at (v ∷ us) zero f u h = ap (λ w. some (f w)) (some_inj v u h)
get_elem?-update_at (v ∷ us) (suc i) f u h = get_elem?-update_at us i f u h

-- The rounds that `positions_from` takes.
pub positions_from-none :
    (rounds position : ℕ) (s : FairScheduler) (sim us : List UploadSnapshot)
    → (take_next s sim).0 ≡ none
    → positions_from rounds position s sim us ≡ us
unfolding positions_from
positions_from-none zero position s sim us e = refl
positions_from-none (suc rounds) position s sim us e = rw (e, positions_from) refl

pub positions_from-some :
    (rounds position : ℕ) (s : FairScheduler) (sim us : List UploadSnapshot) (i : ℕ)
    → (take_next s sim).0 ≡ some i
    → positions_from (suc rounds) position s sim us
      ≡ positions_from rounds
          (position + 1)
          (take_next s sim).1
          (update_at sim i connect)
          (update_at us i (rank position))
unfolding positions_from
positions_from-some rounds position s sim us i e = rw (e, positions_from) refl

pub shorter :
    (s : FairScheduler) (sim : List UploadSnapshot) (i : ℕ)
    → (take_next s sim).0 ≡ some i
    → length (queue (update_at sim i connect)) + 1 ≡ length (queue sim)
shorter s sim i e = let h = chosen_waits s sim i e in length-queue-connect sim i h.0 h.1 h.2

pub positions_from_enough :
    (rounds more position : ℕ) (s : FairScheduler) (sim us : List UploadSnapshot)
    → length (queue sim) ≤ rounds
    → positions_from (more + rounds) position s sim us ≡ positions_from rounds position s sim us
positions_from_enough zero more position s sim us h = elim (Option-cases (take_next s sim).0) [
  | inl e ↦
      positions_from-none (more + 0) position s sim us e
      ∙ sym (positions_from-none 0 position s sim us e)
  | inr (i, e) ↦ absurd (omega (arith, shorter s sim i e))
]
positions_from_enough (suc rounds) more position s sim us h =
    elim (Option-cases (take_next s sim).0) [
      | inl e ↦
          positions_from-none (more + suc rounds) position s sim us e
          ∙ sym (positions_from-none (suc rounds) position s sim us e)
      | inr (i, e) ↦
          ap (λ r. positions_from r position s sim us) (omega arith)
          ∙ positions_from-some (more + rounds) position s sim us i e
          ∙ positions_from_enough rounds more (position + 1) (take_next s sim).1
              (update_at sim i connect) (update_at us i (rank position))
              (omega (arith, shorter s sim i e))
          ∙ sym (positions_from-some rounds position s sim us i e)
    ]

-- An upload that does not wait keeps its position.
pub positions_from_other :
    (rounds position : ℕ) (s : FairScheduler) (sim us : List UploadSnapshot) (i : ℕ)
    (v : UploadSnapshot)
    → get_elem? sim i ≡ some v
    → is_queued v.status ≡ false
    → get_elem? (positions_from rounds position s sim us) i ≡ get_elem? us i
unfolding positions_from
positions_from_other zero position s sim us i v e q = refl
positions_from_other (suc rounds) position s sim us i v e q =
    elim (Option-cases (take_next s sim).0) [
      | inl n ↦ ap (λ l. get_elem? l i) (positions_from-none (suc rounds) position s sim us n)
      | inr (j, c) ↦
          let other : i ≢ j = differ j c in
          ap (λ l. get_elem? l i) (positions_from-some rounds position s sim us j c)
          ∙ positions_from_other rounds (position + 1) (take_next s sim).1 (update_at sim j connect)
              (update_at us j (rank position)) i v
              (get_elem?-update_at_other sim i j connect other ∙ e) q
          ∙ get_elem?-update_at_other us i j (rank position) other
    ]
  where
    differ : (j : ℕ) → (take_next s sim).0 ≡ some j → i ≢ j
    differ j c at =
        let h = chosen_waits s sim j c in
        let same : some v ≡ some h.0 = sym e ∙ ap (get_elem? sim) at ∙ h.1 in
        let waits : is_queued v.status ≡ true =
          ap (λ w. is_queued w.status) (some_inj v h.0 same) ∙ h.2 in
        absurd cc
