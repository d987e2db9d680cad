-- ===== src/UploadPolicy/Numbers.antt =====
-- The numbers that `refresh_positions` of upload_policy.rs gives the queue.
use forever.Prelude.{
  ℕ, zero, suc, ◌+◌, ◌≤◌, ◌<◌, ◌≡◌, ◌≢◌, refl, ap, sym, ◌∙◌, inl, inr, true, Option, none, some,
  List, [], ◌∷◌, map, length, update_at, get_elem?, arith, Option-cases, same_or_not,
  length-keep-le,
}
use forever.Uploads.Types.{UploadSnapshot, is_queued}
use forever.UploadPolicy.{
  FairScheduler, take_next, positions_from, occupied_position, refresh_positions,
}
use forever.UploadPolicy.Waiting.{some_inj}
use forever.UploadPolicy.Fair.{queue}
use forever.UploadPolicy.Ranks.{
  connect, rank, shorter, length-queue-connect, chosen_waits, none_waits, positions_from-some,
  positions_from_other, positions_from_enough, get_elem?-update_at, get_elem?-update_at_other,
}

-- The number of the upload at an index.
abbrev pub position_at : List UploadSnapshot → ℕ → Option ℕ
position_at us i = elim (get_elem? us i) [ none ↦ none | some u ↦ u.queue_position ]

position_at_found :
    (us : List UploadSnapshot) (i : ℕ) (u : UploadSnapshot)
    → get_elem? us i ≡ some u
    → position_at us i ≡ u.queue_position
position_at_found us i u e = rw (e, position_at) refl

-- The upload that is chosen first gets the first number.
pub chosen-rank :
    (rounds position : ℕ) (s : FairScheduler) (sim us : List UploadSnapshot) (i : ℕ)
    (w : UploadSnapshot)
    → (take_next s sim).0 ≡ some i
    → get_elem? us i ≡ some w
    → position_at (positions_from (suc rounds) position s sim us) i ≡ some position
chosen-rank rounds position s sim us i w c e =
    let h = chosen_waits s sim i c in
    position_at_found (positions_from (suc rounds) position s sim us) i (rank position w) (
      ap (λ l. get_elem? l i) (positions_from-some rounds position s sim us i c)
      ∙ positions_from_other rounds (position + 1) (take_next s sim).1 (update_at sim i connect)
          (update_at us i (rank position)) i (connect h.0)
          (get_elem?-update_at sim i connect h.0 h.1) refl
      ∙ get_elem?-update_at us i (rank position) w e)

queue_found :
    (us : List UploadSnapshot) (i : ℕ) (u : UploadSnapshot)
    → get_elem? us i ≡ some u
    → is_queued u.status ≡ true
    → 1 ≤ length (queue us)
queue_found us i u e q = omega (arith, length-queue-connect us i u e q)

-- What number a queued upload gets.
abbrev pub NumberOf : ℕ → List UploadSnapshot → ℕ → ℕ → Type 0
NumberOf position result waiting i =
    (p : ℕ) × (position_at result i ≡ some p) × (position ≤ p) × (p < position + waiting)

pub queued-number :
    (rounds position : ℕ) (s : FairScheduler) (sim us : List UploadSnapshot) (i : ℕ)
    (v w : UploadSnapshot)
    → get_elem? sim i ≡ some v
    → is_queued v.status ≡ true
    → get_elem? us i ≡ some w
    → length (queue sim) ≤ rounds
    → NumberOf position (positions_from rounds position s sim us) (length (queue sim)) i
queued-number zero position s sim us i v w e q f h = absurd (omega (arith, queue_found sim i v e q))
queued-number (suc rounds) position s sim us i v w e q f h =
    elim (Option-cases (take_next s sim).0) [
      | inl n ↦ absurd (omega (arith, queue_found sim i v e q, ap length (none_waits s sim n)))
      | inr (j, c) ↦ elim (same_or_not i j) [
        | inl at ↦ (
          position,
          chosen-rank rounds position s sim us i w (c ∙ ap some (sym at)) f,
          omega arith,
          omega (arith, queue_found sim i v e q),
        )
        | inr other ↦ later j c other (
            queued-number rounds (position + 1) (take_next s sim).1 (update_at sim j connect)
              (update_at us j (rank position)) i v w
              (get_elem?-update_at_other sim i j connect other ∙ e) q
              (get_elem?-update_at_other us i j (rank position) other ∙ f)
              (omega (arith, shorter s sim j c)))
      ]
    ]
  where
    later :
        (j : ℕ)
        → (take_next s sim).0 ≡ some j
        → i ≢ j
        → NumberOf
            (position + 1)
            (positions_from rounds
              (position + 1)
              (take_next s sim).1
              (update_at sim j connect)
              (update_at us j (rank position)))
            (length (queue (update_at sim j connect)))
            i
        → NumberOf position (positions_from (suc rounds) position s sim us) (length (queue sim)) i
    later j c other (p, at, low, high) = (
      p,
      ap (λ l. position_at l i) (positions_from-some rounds position s sim us j c) ∙ at,
      omega arith,
      omega (arith, shorter s sim j c),
    )

-- Whoever is not chosen first gets a number above the first.
later-number :
    (rounds position : ℕ) (s : FairScheduler) (sim us : List UploadSnapshot) (k i : ℕ)
    (v w : UploadSnapshot)
    → (take_next s sim).0 ≡ some k
    → i ≢ k
    → (get_elem? sim i ≡ some v) × (is_queued v.status ≡ true)
    → get_elem? us i ≡ some w
    → length (queue sim) ≤ suc rounds
    → (p : ℕ) × (position_at (positions_from (suc rounds) position s sim us) i ≡ some p)
      × (position < p)
later-number rounds position s sim us k i v w c other (e, q) f h =
    let (p, at, low, high) =
      queued-number rounds (position + 1) (take_next s sim).1 (update_at sim k connect)
        (update_at us k (rank position)) i v w (get_elem?-update_at_other sim i k connect other ∙ e)
        q (get_elem?-update_at_other us i k (rank position) other ∙ f)
        (omega (arith, shorter s sim k c)) in
    (
      p,
      ap (λ l. position_at l i) (positions_from-some rounds position s sim us k c) ∙ at,
      omega arith,
    )

-- Two queued uploads get two numbers.
pub numbers-differ :
    (rounds position : ℕ) (s : FairScheduler) (sim us : List UploadSnapshot) (i j : ℕ)
    (u v w x : UploadSnapshot)
    → i ≢ j
    → (get_elem? sim i ≡ some u) × (is_queued u.status ≡ true)
    → (get_elem? sim j ≡ some v) × (is_queued v.status ≡ true)
    → get_elem? us i ≡ some w
    → get_elem? us j ≡ some x
    → length (queue sim) ≤ rounds
    → position_at (positions_from rounds position s sim us) i
      ≢ position_at (positions_from rounds position s sim us) j
numbers-differ zero position s sim us i j u v w x other f g f' g' h e =
    absurd (omega (arith, queue_found sim i u f.0 f.1))
numbers-differ (suc rounds) position s sim us i j u v w x other f g f' g' h e =
    elim (Option-cases (take_next s sim).0) [
      | inl n ↦ absurd (omega (arith, queue_found sim i u f.0 f.1, ap length (none_waits s sim n)))
      | inr (k, c) ↦ elim (same_or_not i k) [
        | inl at ↦
            apart (chosen-rank rounds position s sim us i w (c ∙ ap some (sym at)) f') e
              (later-number rounds position s sim us k j v x c (λ t. other (at ∙ sym t)) g g' h)
        | inr off ↦ elim (same_or_not j k) [
          | inl at ↦
              apart (chosen-rank rounds position s sim us j x (c ∙ ap some (sym at)) g') (sym e)
                (later-number rounds position s sim us k i u w c off f f' h)
          | inr away ↦
              numbers-differ rounds (position + 1) (take_next s sim).1 (update_at sim k connect)
                (update_at us k (rank position)) i j u v w x other
                (get_elem?-update_at_other sim i k connect off ∙ f.0, f.1)
                (get_elem?-update_at_other sim j k connect away ∙ g.0, g.1)
                (get_elem?-update_at_other us i k (rank position) off ∙ f')
                (get_elem?-update_at_other us j k (rank position) away ∙ g')
                (omega (arith, shorter s sim k c)) (sym (at_round k c i) ∙ e ∙ at_round k c j)
        ]
      ]
    ]
  where
    result : List UploadSnapshot
    result = positions_from (suc rounds) position s sim us

    apart :
        {a b : Option ℕ} → a ≡ some position → a ≡ b → (p : ℕ) × (b ≡ some p) × (position < p) → ⊥
    apart m n (p, o, low) =
        let same : position ≡ p = some_inj position p (sym m ∙ n ∙ o) in omega arith

    at_round :
        (k : ℕ)
        → (take_next s sim).0 ≡ some k
        → (l : ℕ)
        → position_at result l
          ≡ position_at
              (positions_from rounds
                (position + 1)
                (take_next s sim).1
                (update_at sim k connect)
                (update_at us k (rank position)))
              l
    at_round k c l = ap (λ r. position_at r l) (positions_from-some rounds position s sim us k c)

-- The loop of `refresh_positions` ends by itself: with any more rounds than one for each upload
-- the result is the same.
pub refresh_positions_enough :
    (s : FairScheduler) (us : List UploadSnapshot) (more : ℕ)
    → positions_from (more + length us) 1 s us (map occupied_position us) ≡ refresh_positions s us
unfolding refresh_positions
refresh_positions_enough s us more =
    positions_from_enough (length us) more 1 s us (map occupied_position us)
      (length-keep-le (λ u. is_queued u.status) us)

get_elem?-map :
    (us : List UploadSnapshot) (f : UploadSnapshot → UploadSnapshot) (i : ℕ) (u : UploadSnapshot)
    → get_elem? us i ≡ some u
    → get_elem? (map f us) i ≡ some (f u)
get_elem?-map [] f i u e = absurd cc
get_elem?-map (v ∷ us) f zero u e = ap (λ w. some (f w)) (some_inj v u e)
get_elem?-map (v ∷ us) f (suc i) u e = get_elem?-map us f i u e

pub refresh_positions-number :
    (s : FairScheduler) (us : List UploadSnapshot) (i : ℕ) (u : UploadSnapshot)
    → get_elem? us i ≡ some u
    → is_queued u.status ≡ true
    → NumberOf 1 (refresh_positions s us) (length (queue us)) i
unfolding refresh_positions
refresh_positions-number s us i u e q =
    queued-number (length us) 1 s us (map occupied_position us) i u (occupied_position u) e q
      (get_elem?-map us occupied_position i u e) (length-keep-le (λ u. is_queued u.status) us)

-- The upload that `take_next` would choose has the position 1 after `refresh_positions`.
pub take_next-number :
    (us : List UploadSnapshot) (s : FairScheduler) (i : ℕ)
    → (take_next s us).0 ≡ some i
    → position_at (refresh_positions s us) i ≡ some 1
unfolding refresh_positions
take_next-number [] s i c =
    let h = chosen_waits s [] i c in absurd (omega (arith, queue_found [] i h.0 h.1 h.2))
take_next-number (v ∷ us) s i c =
    let h = chosen_waits s (v ∷ us) i c in
    chosen-rank (length us) 1 s (v ∷ us) (map occupied_position (v ∷ us)) i (occupied_position h.0)
      c (get_elem?-map (v ∷ us) occupied_position i h.0 h.1)

-- After `refresh_positions` any two queued uploads have different positions, each from 1 to the
-- number of queued uploads.
pub refresh_positions-numbers :
    (s : FairScheduler) (us : List UploadSnapshot) (i j : ℕ) (u v : UploadSnapshot)
    → i ≢ j
    → (get_elem? us i ≡ some u) × (is_queued u.status ≡ true)
    → (get_elem? us j ≡ some v) × (is_queued v.status ≡ true)
    → NumberOf 1 (refresh_positions s us) (length (queue us)) i
      × NumberOf 1 (refresh_positions s us) (length (queue us)) j
      × (position_at (refresh_positions s us) i ≢ position_at (refresh_positions s us) j)
unfolding refresh_positions
refresh_positions-numbers s us i j u v other f g = (
  refresh_positions-number s us i u f.0 f.1,
  refresh_positions-number s us j v g.0 g.1,
  numbers-differ (length us) 1 s us (map occupied_position us) i j u v (occupied_position u)
      (occupied_position v) other f g (get_elem?-map us occupied_position i u f.0)
      (get_elem?-map us occupied_position j v g.0) (length-keep-le (λ w. is_queued w.status) us),
)
