-- ===== src/RequestGuard/Seen.antt =====
-- The seen requests of the guard in distributed.rs: the map holds those that the queue holds.
use forever.Prelude.{
  ℕ, ◌+◌, ◌-◌, ◌≤◌, ◌<◌, ◌≡◌, refl, ap, ◌∙◌, Bool, true, false, ◌&&◌, ◌||◌, some, List, [], ◌∷◌,
  ◌++◌, length, leb, ltb, ◌==◌, if◌then◌else◌, arith, ==_refl, or_false,
}
use forever.Bytes.{Bytes, bytes_eq}
use forever.RequestGuard.{
  Key, key_eq, max_seen_requests, duplicate_ttl, seen_at, forget, remember, is_at, is_seen,
  forget_at, prune_seen,
}

pub bytes_eq_refl : (a : Bytes) → bytes_eq a a ≡ true
unfolding bytes_eq
bytes_eq_refl [] = refl
bytes_eq_refl (x ∷ xs) = ap (λ b. b && bytes_eq xs xs) (==_refl x) ∙ bytes_eq_refl xs

key_eq_refl : (k : Key) → key_eq k k ≡ true
key_eq_refl (name, token) = ap (λ b. b && (token == token)) (bytes_eq_refl name) ∙ ==_refl token

forget_at_front :
    (k : Key) (time : ℕ) (es : List (Key × ℕ)) → forget_at ((k, time) ∷ es) k time ≡ es
unfolding forget_at seen_at forget
forget_at_front k time es = go (key_eq k k) (key_eq_refl k)
  where
    go :
        (b : Bool)
        → b ≡ true
        → (if is_at (elim b [ true ↦ some time | false ↦ seen_at es k ]) time
            then elim b [ true ↦ es | false ↦ (k, time) ∷ forget es k ]
            else ((k, time) ∷ es))
          ≡ es
    go true e = ap (λ c. if c then es else ((k, time) ∷ es)) (==_refl time)
    go false e = absurd cc

-- The old requests at the front of the queue, and those above the limit, are dropped.
abbrev pub is_old : ℕ → ℕ → ℕ → Bool
is_old time held now = ltb duplicate_ttl (now - time) || leb max_seen_requests held

abbrev pub kept : List (Key × ℕ) → ℕ → List (Key × ℕ)
kept [] now = []
kept ((k, time) ∷ es) now =
    let rest = kept es now in
    if is_old time (length ((k, time) ∷ es)) now then rest else (k, time) ∷ es

-- When the map and the queue hold the same searches, `prune_seen` leaves the same in both: what is
-- left of the queue when its front is dropped while that is older than five minutes or the queue
-- has 8192 entries or more.
pub prune_seen-kept :
    (es : List (Key × ℕ)) (now : ℕ) → prune_seen es es now ≡ (kept es now, kept es now)
unfolding prune_seen
prune_seen-kept [] now = refl
prune_seen-kept ((k, time) ∷ es) now =
    ap (λ l. answer old (prune_seen l es now)) (forget_at_front k time es)
    ∙ ap (answer old) (prune_seen-kept es now)
    ∙ both old
  where
    old : Bool
    old = is_old time (length ((k, time) ∷ es)) now

    answer : Bool → List (Key × ℕ) × List (Key × ℕ) → List (Key × ℕ) × List (Key × ℕ)
    answer b r = if b then r else ((k, time) ∷ es, (k, time) ∷ es)

    both :
        (b : Bool)
        → answer b (kept es now, kept es now)
          ≡ (if b then kept es now else (k, time) ∷ es, if b then kept es now else (k, time) ∷ es)
    both true = refl
    both false = refl

pub length-kept : (es : List (Key × ℕ)) (now : ℕ) → length (kept es now) < max_seen_requests
length-kept [] now = omega arith
length-kept ((k, time) ∷ es) now =
    go (is_old time (length ((k, time) ∷ es)) now) refl (length-kept es now)
  where
    go :
        (b : Bool)
        → is_old time (length ((k, time) ∷ es)) now ≡ b
        → length (kept es now) < max_seen_requests
        → length (if b then kept es now else (k, time) ∷ es) < max_seen_requests
    go true e h = h
    go false e h =
        let f =
          (or_false (ltb duplicate_ttl (now - time))
            (leb max_seen_requests (length ((k, time) ∷ es))) e).1 in
        ground (arith, f)

-- A young request with few behind it stays, and so do those behind it.
pub kept_young :
    (es : List (Key × ℕ)) (k : Key) (time now : ℕ) (fs : List (Key × ℕ))
    → now - time ≤ duplicate_ttl
    → length fs + 1 < max_seen_requests
    → (ds : List (Key × ℕ)) × (kept (es ++ (k, time) ∷ fs) now ≡ ds ++ (k, time) ∷ fs)
kept_young [] k time now fs h few =
    ([], young (is_old time (length ((k, time) ∷ fs)) now) (ground arith))
  where
    young : (b : Bool) → b ≡ false → (if b then kept fs now else (k, time) ∷ fs) ≡ (k, time) ∷ fs
    young true e = absurd cc
    young false e = refl
kept_young ((k', time') ∷ es) k time now fs h few =
    go (is_old time' (length ((k', time') ∷ (es ++ last))) now) (kept_young es k time now fs h few)
  where
    last : List (Key × ℕ)
    last = (k, time) ∷ fs

    pick : Bool → List (Key × ℕ)
    pick b = if b then kept (es ++ last) now else (k', time') ∷ (es ++ last)

    go :
        (b : Bool)
        → ((ds : List (Key × ℕ)) × (kept (es ++ last) now ≡ ds ++ last))
        → (ds : List (Key × ℕ)) × (pick b ≡ ds ++ last)
    go true r = r
    go false r = ((k', time') ∷ es, refl)

pub seen_inside :
    (ds : List (Key × ℕ)) (k : Key) (time : ℕ) (fs : List (Key × ℕ))
    → is_seen (seen_at (ds ++ (k, time) ∷ fs) k) ≡ true
unfolding seen_at
seen_inside [] k time fs = go (key_eq k k) (key_eq_refl k)
  where
    go : (b : Bool) → b ≡ true → is_seen (elim b [ true ↦ some time | false ↦ seen_at fs k ]) ≡ true
    go true e = refl
    go false e = absurd cc
seen_inside ((k', time') ∷ ds) k time fs = go (key_eq k' k) (seen_inside ds k time fs)
  where
    go :
        (b : Bool)
        → is_seen (seen_at (ds ++ (k, time) ∷ fs) k) ≡ true
        → is_seen (elim b [ true ↦ some time' | false ↦ seen_at (ds ++ (k, time) ∷ fs) k ]) ≡ true
    go true h = refl
    go false h = h

-- A request that is not known yet is added behind the others.
pub remember-new :
    (es : List (Key × ℕ)) (k : Key) (now : ℕ)
    → is_seen (seen_at es k) ≡ false
    → remember es k now ≡ es ++ (k, now) ∷ []
unfolding seen_at remember
remember-new [] k now h = refl
remember-new ((k', time) ∷ es) k now h = go (key_eq k' k) h (remember-new es k now)
  where
    go :
        (b : Bool)
        → is_seen (elim b [ true ↦ some time | false ↦ seen_at es k ]) ≡ false
        → (is_seen (seen_at es k) ≡ false → remember es k now ≡ es ++ (k, now) ∷ [])
        → elim b [ true ↦ (k', now) ∷ es | false ↦ (k', time) ∷ remember es k now ]
          ≡ (k', time) ∷ (es ++ (k, now) ∷ [])
    go true e r = absurd cc
    go false e r = ap (λ l. (k', time) ∷ l) (r e)
