-- ===== src/Uploads/Disconnect.antt =====
-- `connection_lost` of uploads.rs: nothing runs after it.
use forever.Prelude.{
  ◌≡◌, refl, ap, ◌∙◌, Bool, true, false, not, ◌||◌, List, [], ◌∷◌, map, keep, any, All, arith,
  if◌then◌else◌, or_false,
}
use forever.Bytes.{Bytes, bytes_eq}
use forever.Uploads.Types.{UploadSnapshot}
use forever.UploadPolicy.Positions.{refresh_positions-strip, count-strip}
use forever.Uploads.Hub.{
  UploadHub, Saving, Task, count, is_active, refresh_queue_positions, persist, abort, reset_pending,
}
use forever.Uploads.Cancelled.{has, of_upload, abort_active-cancels}
use forever.Uploads.Queue.{requeued, abort_active, connection_lost}

-- Whether a task of the upload runs.
abbrev pub runs : Bytes → List Task → Bool
runs id tasks = any (λ t. bytes_eq t.0 id) tasks

any-keep : (p q : Task → Bool) (ts : List Task) → any p ts ≡ false → any p (keep q ts) ≡ false
any-keep p q [] h = refl
any-keep p q (t ∷ ts) h =
    let e = or_false (p t) (any p ts) h in
    go (q t) (any-keep p q ts e.1) (ap (λ b. b || any p (keep q ts)) e.0)
  where
    go :
        (b : Bool)
        → any p (keep q ts) ≡ false
        → (p t || any p (keep q ts)) ≡ (false || any p (keep q ts))
        → any p (elim b [ true ↦ t ∷ keep q ts | false ↦ keep q ts ]) ≡ false
    go true rest h = h ∙ rest
    go false rest h = rest

any-keep-not : (p : Task → Bool) (ts : List Task) → any p (keep (λ t. not (p t)) ts) ≡ false
any-keep-not p [] = refl
any-keep-not p (t ∷ ts) = go (p t) refl (any-keep-not p ts)
  where
    others : List Task
    others = keep (λ t. not (p t)) ts

    go :
        (b : Bool)
        → p t ≡ b
        → any p others ≡ false
        → any p (elim (not b) [ true ↦ t ∷ others | false ↦ others ]) ≡ false
    go true e rest = rest
    go false e rest = ap (λ c. c || any p others) e ∙ rest

none_active : (us : List UploadSnapshot) → count is_active (map requeued us) ≡ 0
unfolding requeued reset_pending
none_active [] = refl
none_active (u ∷ us) = go (is_active u) refl (none_active us)
  where
    go :
        (b : Bool)
        → is_active u ≡ b
        → count is_active (map requeued us) ≡ 0
        → count is_active ((if b then reset_pending u else u) ∷ map requeued us) ≡ 0
    go true e rest = rest
    go false e rest = ground (arith, e, rest)

-- What does not run is not started by aborting.
abort_active-quiet :
    (us : List UploadSnapshot) (hub : UploadHub) (id : Bytes)
    → runs id hub.tasks ≡ false
    → runs id (abort_active us hub).tasks ≡ false
unfolding abort_active abort
abort_active-quiet [] hub id h = h
abort_active-quiet (u ∷ us) hub id h =
    abort_active-quiet us (if is_active u then abort hub u.id else hub) id (go (is_active u))
  where
    go : (b : Bool) → runs id (if b then abort hub u.id else hub).tasks ≡ false
    go true = any-keep (λ t. bytes_eq t.0 id) (λ t. not (bytes_eq t.0 u.id)) hub.tasks h
    go false = h

abort_active-stops :
    (us : List UploadSnapshot) (hub : UploadHub)
    → All (λ u. runs u.id (abort_active us hub).tasks ≡ false) (keep is_active us)
unfolding abort_active abort
abort_active-stops [] hub = tt
abort_active-stops (u ∷ us) hub =
    go (is_active u) (abort_active-stops us (if is_active u then abort hub u.id else hub)) (
      abort_active-quiet us (abort hub u.id) u.id (any-keep-not (λ t. bytes_eq t.0 u.id) hub.tasks))
  where
    go :
        (b : Bool)
        → All
            (λ v. runs v.id (abort_active us (if b then abort hub u.id else hub)).tasks ≡ false)
            (keep is_active us)
        → runs u.id (abort_active us (abort hub u.id)).tasks ≡ false
        → All
            (λ v. runs v.id (abort_active us (if b then abort hub u.id else hub)).tasks ≡ false)
            (elim b [ true ↦ u ∷ keep is_active us | false ↦ keep is_active us ])
    go true rest first = (first, rest)
    go false rest first = rest

-- Of every upload that was active, no task is on the register and each that was is cancelled.
abbrev pub IsStopped : UploadHub → UploadHub → UploadSnapshot → Type 0
IsStopped before after u =
    (runs u.id after.tasks ≡ false)
    × All (λ task. has task after.cancelled ≡ true) (keep (of_upload u.id) before.tasks)

all-IsStopped :
    (us vs : List UploadSnapshot) (hub : UploadHub)
    → All (λ u. runs u.id (abort_active us hub).tasks ≡ false) vs
    → All (IsStopped hub (abort_active us hub)) vs
all-IsStopped us [] hub h = tt
all-IsStopped us (v ∷ vs) hub (h, hs) =
    ((h, abort_active-cancels us hub v.id h), all-IsStopped us vs hub hs)

-- After `connection_lost` no upload is active. Of every upload that was, no task is on the
-- register any more, and each of the tasks that were on it has its cancellation flag set.
pub connection_lost-quiet :
    (hub : UploadHub) (saving : Saving)
    → (count is_active (connection_lost hub saving).uploads ≡ 0)
      × All (IsStopped hub (connection_lost hub saving)) (keep is_active hub.uploads)
unfolding connection_lost persist refresh_queue_positions
connection_lost-quiet hub saving = (
  count-strip (connection_lost hub saving).uploads (map requeued hub.uploads)
        (refresh_positions-strip (abort_active hub.uploads hub).scheduler
          (map requeued hub.uploads))
        is_active (λ u. refl)
      ∙ none_active hub.uploads,
  all-IsStopped hub.uploads (keep is_active hub.uploads) hub (abort_active-stops hub.uploads hub),
)
