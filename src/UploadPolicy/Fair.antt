-- ===== src/UploadPolicy/Fair.antt =====
-- What upload_policy.rs promises of the upload that gets the next slot.
use forever.Prelude.{
  ℕ, suc, ◌+◌, ◌≤◌, if◌then◌else◌, ◌≡◌, refl, ap, sym, subst, ◌∙◌, ◌⊎◌, inl, inr, Bool, true, false,
  Option, none, some, List, [], ◌∷◌, All, All-keep, All-imp, all, keep, get_elem?, arith,
  Bool-cases, Option-cases, ◌==◌, ==→eq,
}
use forever.Bytes.{Bytes}
use forever.Text.{to_ascii_lowercase}
use forever.Uploads.Types.{UploadSnapshot, is_queued}
use forever.UploadPolicy.{
  FairScheduler, active, contains, waiting_from, minimum, least, new_round, serve, choose,
  candidates_of, take_for, take_next,
}
use forever.UploadPolicy.Waiting.{waiting_from-All, minimum-le, minimum-none}
use forever.UploadPolicy.Choice.{least-All, least-unserved, all-All, keep-All, minimum-attained}

abbrev pub user_of : UploadSnapshot → Bytes
user_of u = to_ascii_lowercase u.username

abbrev pub queue : List UploadSnapshot → List UploadSnapshot
queue uploads = keep (λ v. is_queued v.status) uploads

-- The upload at an index.
pub record IsQueuedAt (uploads : List UploadSnapshot) (i : ℕ) (user : Bytes) : Type 0 where
  pub upload : UploadSnapshot
  pub found : get_elem? uploads i ≡ some upload
  pub waits : is_queued upload.status ≡ true
  pub named : user_of upload ≡ user

-- The round that the choice is made in: the one that ran, or a new one, if all the waiting users
-- with as few active uploads were served.
abbrev pub Round : FairScheduler → List UploadSnapshot → Bytes → List Bytes → Type 0
Round s uploads user served =
    (served ≡ s.served)
    ⊎ ((served ≡ [])
        × All (λ c. contains s.served c.1 ≡ true) (candidates_of uploads (active uploads user)))

-- The upload at `i` is a queued one of a user who has the fewest active uploads of all who wait,
-- and who was not served in the round.
pub record IsFair (s : FairScheduler) (uploads : List UploadSnapshot) (i : ℕ) (s' : FairScheduler)
    : Type 0 where
  pub user : Bytes
  pub served : List Bytes
  pub queued : IsQueuedAt uploads i user
  pub fewest : All (λ v. active uploads user ≤ active uploads (user_of v)) (queue uploads)
  pub round : Round s uploads user served
  pub unserved : contains served user ≡ false
  pub after : s' ≡ record s { served = user ∷ served }

abbrev pub Outcome : FairScheduler → List UploadSnapshot → Option ℕ × FairScheduler → Type 0
Outcome s uploads (none, s') = (queue uploads ≡ []) × (s' ≡ s)
Outcome s uploads (some i, s') = IsFair s uploads i s'

queue-All :
    (P : ℕ × Bytes → Type 0) (Q : UploadSnapshot → Type 0) (k : ℕ) (us : List UploadSnapshot)
    → ((i : ℕ) (u : UploadSnapshot) → P (i, user_of u) → Q u)
    → All P (waiting_from k us)
    → All Q (queue us)
unfolding waiting_from
queue-All P Q k [] f h = tt
queue-All P Q k (u ∷ us) f h = cases (is_queued u.status) (λ hs. queue-All P Q (suc k) us f hs) h
  where
    cases :
        (b : Bool)
        → (All P (waiting_from (suc k) us) → All Q (queue us))
        → All P (if b then (k, user_of u) ∷ waiting_from (suc k) us else waiting_from (suc k) us)
        → All Q (elim b [ true ↦ u ∷ queue us | false ↦ queue us ])
    cases true rest (h, hs) = (f k u h, rest hs)
    cases false rest hs = rest hs

queue_none : (k : ℕ) (us : List UploadSnapshot) → waiting_from k us ≡ [] → queue us ≡ []
unfolding waiting_from
queue_none k [] h = refl
queue_none k (u ∷ us) h = cases (is_queued u.status) (λ h'. queue_none (suc k) us h') h
  where
    cases :
        (b : Bool)
        → (waiting_from (suc k) us ≡ [] → queue us ≡ [])
        → (if b then (k, user_of u) ∷ waiting_from (suc k) us else waiting_from (suc k) us) ≡ []
        → elim b [ true ↦ u ∷ queue us | false ↦ queue us ] ≡ []
    cases true rest h' = absurd cc
    cases false rest h' = rest h'

All-both :
    (P Q : ℕ × Bytes → Type 0) (cs : List (ℕ × Bytes))
    → All P cs
    → All Q cs
    → All (λ c. P c × Q c) cs
All-both P Q [] h k = tt
All-both P Q (c ∷ cs) (h, hs) (k, ks) = ((h, k), All-both P Q cs hs ks)

module _ (s : FairScheduler) (uploads : List UploadSnapshot) where
  -- What is known of every candidate.
  abbrev pub Candidate : ℕ → ℕ × Bytes → Type 0
  Candidate m c = IsQueuedAt uploads c.0 c.1 × (active uploads c.1 ≡ m)

  waiting_known : All (λ c. IsQueuedAt uploads c.0 c.1) (waiting_from 0 uploads)
  waiting_known =
      waiting_from-All (λ c. IsQueuedAt uploads c.0 c.1) 0 uploads
        (λ j u e q.
          let at : 0 + j ≡ j = omega arith in
          record { upload = u; found = rw at e; waits = q; named = refl })

  pub candidates-All : (m : ℕ) → All (Candidate m) (candidates_of uploads m)
  unfolding candidates_of
  candidates-All m =
      All-both _ _ (candidates_of uploads m)
        (All-keep _ (λ c. active uploads c.1 == m) (waiting_from 0 uploads) waiting_known)
        (All-imp _ _ (candidates_of uploads m) (λ c e. ==→eq (active uploads c.1) m e)
          (keep-All (λ c. active uploads c.1 == m) (waiting_from 0 uploads)))

  -- The choice in a round `r`.
  served_in :
      (m : ℕ) (r : FairScheduler) (best : ℕ × Bytes)
      → Candidate m best
      → All (λ d. m ≤ active uploads d.1) (waiting_from 0 uploads)
      → (active uploads best.1 ≡ m → Round s uploads best.1 r.served)
      → contains r.served best.1 ≡ false
      → record r { served = best.1 ∷ r.served } ≡ record s { served = best.1 ∷ r.served }
      → Outcome s uploads (serve r best)
  unfolding serve
  served_in m r (i, user) (known, same) least_of round unserved after = record {
    user = user;
    served = r.served;
    queued = known;
    fewest =
        queue-All (λ d. m ≤ active uploads d.1) _ 0 uploads
          (λ j v (le : m ≤ active uploads (user_of v)). omega (arith, same, le)) least_of;
    round = round same;
    unserved = unserved;
    after = after;
  }

  chosen :
      (m : ℕ) (c : ℕ × Bytes) (cs : List (ℕ × Bytes))
      → candidates_of uploads m ≡ c ∷ cs
      → All (λ d. m ≤ active uploads d.1) (waiting_from 0 uploads)
      → Outcome s uploads (choose s (c ∷ cs))
  unfolding choose new_round
  chosen m c cs e least_of =
      let (first, others) = subst (All (Candidate m)) e (candidates-All m) in
      elim (Bool-cases (all (λ c. contains s.served c.1) (c ∷ cs))) [
        | inl over ↦
            let r : FairScheduler = record s { served = [] } in
            rw over (
              served_in m r (least r c cs) (least-All r (Candidate m) cs c first others) least_of
                (λ same. inr (
                  refl,
                  subst (All (λ c. contains s.served c.1 ≡ true))
                      (sym e ∙ ap (candidates_of uploads) (sym same))
                      (all-All (λ c. contains s.served c.1) (c ∷ cs) over),
                ))
                refl refl)
        | inr running ↦ rw running (
            served_in m s (least s c cs) (least-All s (Candidate m) cs c first others) least_of
              (λ same. inl refl) (least-unserved s cs c running) refl)
      ]

  some_candidate :
      (m : ℕ)
      → minimum (λ c. active uploads c.1) (waiting_from 0 uploads) ≡ some m
      → (cs : List (ℕ × Bytes)) → candidates_of uploads m ≡ cs
      → Outcome s uploads (choose s cs)
  unfolding candidates_of
  some_candidate m e [] h =
      absurd (minimum-attained (λ c. active uploads c.1) (waiting_from 0 uploads) m e h)
  some_candidate m e (c ∷ cs) h =
      chosen m c cs h (minimum-le (λ c. active uploads c.1) (waiting_from 0 uploads) m e)

  -- The upload that gets the next slot is a queued one of a user who has no more active uploads
  -- than any user who waits; that user was not served in the round and is the only one added to
  -- it, and a new round begins only when every waiting user with as few active uploads was served.
  -- If nothing is queued, none is chosen and the scheduler stays as it was.
  pub take_next-Outcome : Outcome s uploads (take_next s uploads)
  unfolding take_next take_for
  take_next-Outcome =
      elim (Option-cases (minimum (λ c. active uploads c.1) (waiting_from 0 uploads))) [
        | inl e ↦ rw e (
          queue_none 0 uploads (minimum-none (λ c. active uploads c.1) (waiting_from 0 uploads) e),
          refl,
        )
        | inr (m, e) ↦ rw e (some_candidate m e (candidates_of uploads m) refl)
      ]
