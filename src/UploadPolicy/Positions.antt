-- ===== src/UploadPolicy/Positions.antt =====
-- What `refresh_positions` of upload_policy.rs leaves alone: all but the positions.
use forever.Prelude.{
  ℕ, zero, suc, ◌+◌, ◌≡◌, refl, ap, sym, subst, ◌∙◌, Bool, Option, none, some, List, [], ◌∷◌, map,
  keep, length, All, update_at, arith,
}
use forever.Uploads.Types.{UploadSnapshot, UploadStatus}
use forever.UploadPolicy.{
  FairScheduler, take_next, positions_from, occupied_position, refresh_positions,
}

abbrev pub strip : UploadSnapshot → UploadSnapshot
strip u = record u { queue_position = none }

update_at-strip :
    (us : List UploadSnapshot) (i : ℕ) (x : Option ℕ)
    → map strip (update_at us i (λ u. record u { queue_position = x })) ≡ map strip us
update_at-strip [] i x = refl
update_at-strip (u ∷ us) zero x = refl
update_at-strip (u ∷ us) (suc i) x = ap (λ r. strip u ∷ r) (update_at-strip us i x)

positions_from-strip :
    (rounds position : ℕ) (s : FairScheduler) (simulation us : List UploadSnapshot)
    → map strip (positions_from rounds position s simulation us) ≡ map strip us
unfolding positions_from
positions_from-strip zero position s simulation us = refl
positions_from-strip (suc rounds) position s simulation us =
    let next = take_next s simulation in
    elim next.0
      as (λ o.
        map strip (elim o [
          | none ↦ us
          | some i ↦
              positions_from rounds (position + 1) next.1
                (update_at simulation i (λ u. record u { status = UploadStatus.connecting }))
                (update_at us i (λ u. record u { queue_position = some position }))
        ])
        ≡ map strip us) [
          | none ↦ refl
          | some i ↦
              positions_from-strip rounds (position + 1) next.1
                (update_at simulation i (λ u. record u { status = UploadStatus.connecting }))
                (update_at us i (λ u. record u { queue_position = some position }))
              ∙ update_at-strip us i (some position)
        ]

occupied-strip : (us : List UploadSnapshot) → map strip (map occupied_position us) ≡ map strip us
unfolding occupied_position
occupied-strip [] = refl
occupied-strip (u ∷ us) = ap (λ r. strip u ∷ r) (occupied-strip us)

-- Only the positions change.
pub refresh_positions-strip :
    (s : FairScheduler) (us : List UploadSnapshot)
    → map strip (refresh_positions s us) ≡ map strip us
unfolding refresh_positions
refresh_positions-strip s us =
    positions_from-strip (length us) 1 s us (map occupied_position us) ∙ occupied-strip us

-- What does not look at the positions.
module _ (us vs : List UploadSnapshot) (e : map strip us ≡ map strip vs) where
  pub count-strip :
      (p : UploadSnapshot → Bool)
      → ((u : UploadSnapshot) → p (strip u) ≡ p u)
      → length (keep p us) ≡ length (keep p vs)
  count-strip p same = sym (count_map us) ∙ ap (λ l. length (keep p l)) e ∙ count_map vs
    where
      count_map : (ws : List UploadSnapshot) → length (keep p (map strip ws)) ≡ length (keep p ws)
      count_map [] = refl
      count_map (w ∷ ws) = ground (arith, same w, count_map ws)

  pub All-strip {κ} :
      (P : UploadSnapshot → Type κ)
      → ((u : UploadSnapshot) → P u → P (strip u))
      → ((u : UploadSnapshot) → P (strip u) → P u)
      → All P vs
      → All P us
  All-strip P there back h = from us (subst (All P) (sym e) (to vs h))
    where
      to : (ws : List UploadSnapshot) → All P ws → All P (map strip ws)
      to [] h = tt
      to (w ∷ ws) (h, hs) = (there w h, to ws hs)

      from : (ws : List UploadSnapshot) → All P (map strip ws) → All P ws
      from [] h = tt
      from (w ∷ ws) (h, hs) = (back w h, from ws hs)
