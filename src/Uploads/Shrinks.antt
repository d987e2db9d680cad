-- ===== src/Uploads/Shrinks.antt =====
-- How the functions on lists that uploads.rs uses shrink a queue.
use forever.Prelude.{
  ℕ, zero, suc, ◌≡◌, refl, ap, sym, subst, ◌∙◌, Bool, true, false, some, List, [], ◌∷◌, map, keep,
  update_at, update_first, get_elem?,
}
use forever.Uploads.Types.{UploadSnapshot}
use forever.UploadPolicy.{FairScheduler, refresh_positions}
use forever.UploadPolicy.Positions.{strip, refresh_positions-strip}
use forever.UploadPolicy.Waiting.{some_inj}
use forever.Uploads.Queue.{remove_at}
use forever.Uploads.Hub.{is_pending}
use forever.Uploads.Valid.{Valid, Sound, Replaces, Shrinks, end, same, skip, stays, Valid-Shrinks}

pub Shrinks-refl : (us : List UploadSnapshot) → Shrinks us us
Shrinks-refl [] = end
Shrinks-refl (u ∷ us) = same (stays u) (Shrinks-refl us)

pub keep-Shrinks : (p : UploadSnapshot → Bool) (us : List UploadSnapshot) → Shrinks us (keep p us)
keep-Shrinks p [] = end
keep-Shrinks p (u ∷ us) =
    elim (p u) as (λ b. Shrinks (u ∷ us) (elim b [ true ↦ u ∷ keep p us | false ↦ keep p us ])) [
      | true ↦ same (stays u) (keep-Shrinks p us)
      | false ↦ skip (keep-Shrinks p us)
    ]

pub map-Shrinks :
    (f : UploadSnapshot → UploadSnapshot) (us : List UploadSnapshot)
    → ((u : UploadSnapshot) → Replaces u (f u))
    → Shrinks us (map f us)
map-Shrinks f [] r = end
map-Shrinks f (u ∷ us) r = same (r u) (map-Shrinks f us r)

pub update_first-Shrinks :
    (p : UploadSnapshot → Bool) (f : UploadSnapshot → UploadSnapshot) (us : List UploadSnapshot)
    → ((u : UploadSnapshot) → p u ≡ true → Replaces u (f u))
    → Shrinks us (update_first p f us)
update_first-Shrinks p f [] r = end
update_first-Shrinks p f (u ∷ us) r = go (p u) (r u) (update_first-Shrinks p f us r)
  where
    go :
        (b : Bool)
        → (b ≡ true → Replaces u (f u))
        → Shrinks us (update_first p f us)
        → Shrinks (u ∷ us) (elim b [ true ↦ f u ∷ us | false ↦ u ∷ update_first p f us ])
    go true h rest = same (h refl) (Shrinks-refl us)
    go false h rest = same (stays u) rest

pub update_at-Shrinks :
    (us : List UploadSnapshot) (i : ℕ) (f : UploadSnapshot → UploadSnapshot) (u : UploadSnapshot)
    → get_elem? us i ≡ some u
    → Replaces u (f u)
    → Shrinks us (update_at us i f)
update_at-Shrinks [] i f u e r = end
update_at-Shrinks (v ∷ us) zero f u e r =
    same (subst (λ w. Replaces w (f w)) (sym (some_inj v u e)) r) (Shrinks-refl us)
update_at-Shrinks (v ∷ us) (suc i) f u e r = same (stays v) (update_at-Shrinks us i f u e r)

pub remove_at-Shrinks : (us : List UploadSnapshot) (i : ℕ) → Shrinks us (remove_at us i)
remove_at-Shrinks [] i = end
remove_at-Shrinks (u ∷ us) zero = skip (Shrinks-refl us)
remove_at-Shrinks (u ∷ us) (suc i) = same (stays u) (remove_at-Shrinks us i)

-- Lists that differ in the positions alone.
head_or : UploadSnapshot → List UploadSnapshot → UploadSnapshot
head_or u [] = u
head_or u (v ∷ us) = v

tail_of : List UploadSnapshot → List UploadSnapshot
tail_of [] = []
tail_of (u ∷ us) = us

strip-Replaces : (u v : UploadSnapshot) → strip u ≡ strip v → Replaces u v
strip-Replaces u v e = (
  sym (ap (λ w. w.username) e),
  sym (ap (λ w. w.remote_filename) e),
  λ h. sym (ap is_pending e) ∙ h,
  λ h. subst Sound e h,
)

pub strip-Shrinks : (us vs : List UploadSnapshot) → map strip us ≡ map strip vs → Shrinks us vs
unfolding head_or tail_of
strip-Shrinks [] [] e = end
strip-Shrinks [] (v ∷ vs) e = absurd cc
strip-Shrinks (u ∷ us) [] e = absurd cc
strip-Shrinks (u ∷ us) (v ∷ vs) e =
    same (strip-Replaces u v (ap (head_or u) e)) (strip-Shrinks us vs (ap tail_of e))

pub Valid-strip : (us vs : List UploadSnapshot) → map strip us ≡ map strip vs → Valid us → Valid vs
Valid-strip us vs e = Valid-Shrinks us vs (strip-Shrinks us vs e)

pub Valid-refresh_positions :
    (s : FairScheduler) (us : List UploadSnapshot) → Valid us → Valid (refresh_positions s us)
Valid-refresh_positions s us =
    Valid-strip us (refresh_positions s us) (sym (refresh_positions-strip s us))
