-- ===== src/Uploads/Returns.antt =====
-- `retry` of uploads.rs, and the queue that `load` makes of a stored one.
use forever.Prelude.{
  ℕ, ◌≤◌, ◌≡◌, refl, ap, subst, ◌∙◌, Bool, true, false, ◌&&◌, ◌||◌, Option, none, some, List, [],
  ◌∷◌, map, length, any, update_at, get_elem?, is_empty, arith, ltb, if◌then◌else◌, or_false, All,
  All-imp, length-keep-le, length-map,
}
use forever.Bytes.{Bytes, bytes_eq}
use forever.Text.{to_ascii_lowercase}
use forever.Text.Trim.{trim}
use forever.Uploads.Types.{
  UploadSnapshot, UploadError, UploadQueueSnapshot, Answer, err, is_failed, finished,
}
use forever.UploadPolicy.{UploadPolicy}
use forever.UploadPolicy.Waiting.{some_inj}
use forever.Uploads.Hub.{UploadHub, Saving, is_pending, is_request, max_upload_queue, reset_pending}
use forever.Uploads.Operations.{refusal}
use forever.Uploads.Queue.{
  remove_at, position, retried, settled, retry_at, retry, is_invalid, check_pending, decode_store,
  load,
}
use forever.Uploads.Valid.{Valid, Sound, Distinct, clash, Valid-Shrinks}
use forever.Uploads.Shrinks.{remove_at-Shrinks, Valid-refresh_positions}
use forever.Uploads.Grows.{Valid-put, bytes_eq_sym}
use forever.Uploads.Preserved.{IsValid, settled-Valid}
use forever.Uploads.Joins.{refusal_room}

settled-IsValid :
    (hub : UploadHub) (us : List UploadSnapshot) (saving : Saving)
    → Valid us
    → IsValid (settled hub us saving).1
unfolding settled
settled-IsValid hub us saving h = settled-Valid (record hub { uploads = us }) saving h

retried-Sound : (now : ℕ) (u : UploadSnapshot) → Sound (retried now u)
unfolding reset_pending
retried-Sound now u = (omega arith, refl)

module _ (hub : UploadHub) (now : ℕ) (saving : Saving) (valid : IsValid hub) where
  retry_at-Valid :
      (i : ℕ) (u : UploadSnapshot)
      → get_elem? hub.uploads i ≡ some u
      → IsValid (retry_at hub i u now saving).1
  unfolding retry_at reset_pending
  retry_at-Valid i u f = again (any (is_request u.username u.remote_filename) hub.uploads) refl
    where
      last : Option UploadError → Answer UploadQueueSnapshot × UploadHub
      last o = elim o [
        | some e ↦ (err e, hub)
        | none ↦ settled hub (update_at hub.uploads i (retried now)) saving
      ]

      answer : Bool → Answer UploadQueueSnapshot × UploadHub
      answer b =
          if b
          then settled hub (remove_at hub.uploads i) saving
          else last (refusal hub u.username u.size_bytes)

      put :
          (o : Option UploadError)
          → refusal hub u.username u.size_bytes ≡ o
          → any (is_request u.username u.remote_filename) hub.uploads ≡ false
          → IsValid (last o).1
      put (some e) r n = valid
      put none r n = settled-IsValid hub (update_at hub.uploads i (retried now)) saving (
          Valid-put hub.uploads i (retried now) u f n (retried-Sound now u)
            (refusal_room hub u.username u.size_bytes r) valid)

      again :
          (b : Bool)
          → any (is_request u.username u.remote_filename) hub.uploads ≡ b
          → IsValid (answer b).1
      again true n = settled-IsValid hub (remove_at hub.uploads i) saving (
          Valid-Shrinks hub.uploads (remove_at hub.uploads i) (remove_at-Shrinks hub.uploads i)
            valid)
      again false n = put (refusal hub u.username u.size_bytes) refl n

  pub retry-Valid : (id : Bytes) → IsValid (retry hub id now saving).1
  unfolding retry
  retry-Valid id = go (position (λ u. bytes_eq u.id id && is_failed u.status) hub.uploads)
    where
      at : ℕ → Option UploadSnapshot → Answer UploadQueueSnapshot × UploadHub
      at i o = elim o [
        | none ↦ (err UploadError.not_found, hub)
        | some u ↦ retry_at hub i u now saving
      ]

      answer : Option ℕ → Answer UploadQueueSnapshot × UploadHub
      answer o = elim o [
        | none ↦ (err UploadError.not_found, hub)
        | some i ↦ at i (get_elem? hub.uploads i)
      ]

      found : (i : ℕ) (o : Option UploadSnapshot) → get_elem? hub.uploads i ≡ o → IsValid (at i o).1
      found i none e = valid
      found i (some u) e = retry_at-Valid i u e

      go : (o : Option ℕ) → IsValid (answer o).1
      go none = valid
      go (some i) = found i (get_elem? hub.uploads i) refl

last_false :
    (a b c d e f g : Bool) → (a || (b || (c || (d || (e || (f || g)))))) ≡ false → g ≡ false
last_false false false false false false false g h = h
last_false a b c d e f g h = absurd cc

abbrev is_for : UploadSnapshot → Bytes × Bytes → Bool
is_for u r =
    bytes_eq r.0 (to_ascii_lowercase u.username)
    && bytes_eq r.1 (to_ascii_lowercase u.remote_filename)

accepted :
    (ids : List Bytes) (requests : List (Bytes × Bytes)) (u : UploadSnapshot)
    → is_invalid ids requests u ≡ false
    → any (is_for u) requests ≡ false
unfolding is_invalid
accepted ids requests u h =
    last_false (is_empty (trim u.username)) (ltb 100 (length u.username))
      (is_empty u.remote_filename) (ltb 32768 (length u.remote_filename)) (finished u.status)
      (any (bytes_eq u.id) ids) (any (is_for u) requests) h

All-to {ℓ κ κ'} :
    {A : Type ℓ} (P : A → Type κ) (Q : A → Type κ') (f : A → A) (xs : List A)
    → ((x : A) → P x → Q (f x))
    → All P xs
    → All Q (map f xs)
All-to P Q f [] to h = tt
All-to P Q f (x ∷ xs) to (h, hs) = (to x h, All-to P Q f xs to hs)

no_clash :
    (u v : UploadSnapshot)
    → is_for v (to_ascii_lowercase u.username, to_ascii_lowercase u.remote_filename) ≡ false
    → clash (reset_pending u) (reset_pending v) ≡ false
unfolding reset_pending
no_clash u v h =
    ap
      (λ b.
        b && bytes_eq (to_ascii_lowercase v.remote_filename) (to_ascii_lowercase u.remote_filename))
      (bytes_eq_sym (to_ascii_lowercase v.username) (to_ascii_lowercase u.username))
    ∙ ap (λ b. bytes_eq (to_ascii_lowercase u.username) (to_ascii_lowercase v.username) && b)
        (bytes_eq_sym (to_ascii_lowercase v.remote_filename) (to_ascii_lowercase u.remote_filename))
    ∙ h

taken : (b r : Bool) → (if b then false else r) ≡ true → (b ≡ false) × (r ≡ true)
taken true r h = absurd cc
taken false r h = (refl, h)

-- The uploads of a queue that passes the checks are for distinct requests, and for none of those before.
checked-Distinct :
    (ids : List Bytes) (requests : List (Bytes × Bytes)) (us : List UploadSnapshot)
    → check_pending ids requests us ≡ true
    → Distinct (map reset_pending us) × All (λ u. any (is_for u) requests ≡ false) us
unfolding check_pending
checked-Distinct ids requests [] h = (tt, tt)
checked-Distinct ids requests (u ∷ us) h =
    let r : Bytes × Bytes = (to_ascii_lowercase u.username, to_ascii_lowercase u.remote_filename) in
    let t = taken (is_invalid ids requests u) (check_pending (u.id ∷ ids) (r ∷ requests) us) h in
    let rest = checked-Distinct (u.id ∷ ids) (r ∷ requests) us t.1 in
    (
      (
        All-to (λ v. any (is_for v) (r ∷ requests) ≡ false) (λ v. clash (reset_pending u) v ≡ false)
            reset_pending us
            (λ v e. no_clash u v (or_false (is_for v r) (any (is_for v) requests) e).0) rest.1,
        rest.0,
      ),
      (
        accepted ids requests u t.0,
        All-imp (λ v. any (is_for v) (r ∷ requests) ≡ false) (λ v. any (is_for v) requests ≡ false)
            us (λ v e. (or_false (is_for v r) (any (is_for v) requests) e).1) rest.1,
      ),
    )

reset-Sound : (us : List UploadSnapshot) → All Sound (map reset_pending us)
unfolding reset_pending
reset-Sound [] = tt
reset-Sound (u ∷ us) = ((omega arith, refl), reset-Sound us)

checked-Valid :
    (us : List UploadSnapshot)
    → length us ≤ max_upload_queue
    → check_pending [] [] us ≡ true
    → Valid (map reset_pending us)
checked-Valid us l h = record {
  bounded =
      omega (arith, length-keep-le is_pending (map reset_pending us), length-map reset_pending us);
  distinct = (checked-Distinct [] [] us h).0;
  sound = reset-Sound us;
}

pub load-Valid :
    (uploads : List UploadSnapshot) (served : List Bytes) (policy : UploadPolicy) (seed : ℕ)
    → check_pending [] [] uploads ≡ true
    → length uploads ≤ max_upload_queue
    → IsValid (load (uploads, served) policy seed)
unfolding load
load-Valid uploads served policy seed h l =
    Valid-refresh_positions
      (record { served = served; policy = policy; favorites = []; privileged = [] })
      (map reset_pending uploads) (checked-Valid uploads l h)

-- A queue that `decode_store` takes is loaded as it was stored, and valid.
pub decoded-Valid :
    (uploads : List UploadSnapshot) (served : List Bytes) (policy : UploadPolicy) (seed : ℕ)
    (stored : List UploadSnapshot × List Bytes)
    → decode_store uploads served ≡ some stored
    → IsValid (load stored policy seed)
unfolding decode_store
decoded-Valid uploads served policy seed stored h =
    go (ltb max_upload_queue (length uploads)) (ltb max_upload_queue (length served))
      (check_pending [] [] uploads) refl refl h
  where
    go :
        (a b c : Bool)
        → ltb max_upload_queue (length uploads) ≡ a
        → check_pending [] [] uploads ≡ c
        → (if a || b then none else if c then some (uploads, served) else none) ≡ some stored
        → IsValid (load stored policy seed)
    go true b c l e h = absurd cc
    go false true c l e h = absurd cc
    go false false false l e h = absurd cc
    go false false true l e h =
        subst (λ r. IsValid (load r policy seed)) (some_inj (uploads, served) stored h)
          (load-Valid uploads served policy seed e (ground arith))
