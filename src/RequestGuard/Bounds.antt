-- ===== src/RequestGuard/Bounds.antt =====
-- How much the guard in distributed.rs holds, and that it knows what it admitted.
use forever.Prelude.{
  ℕ, ◌-◌, ◌≤◌, ◌<◌, ◌≡◌, refl, ap, sym, subst, ◌∙◌, Bool, true, false, ◌||◌, List, [], ◌∷◌, ◌++◌,
  length, All, is_empty, leb, ltb, if◌then◌else◌, arith, length-append,
}
use forever.Bytes.{Bytes, bytes_eq}
use forever.Text.{to_ascii_lowercase}
use forever.RequestGuard.{
  RequestAdmission, RequestGuard, max_seen_requests, max_requests_per_window,
  max_requests_per_user_window, request_rate_window, new_guard, prune_times, prune_seen, seen_at,
  remember, is_seen, times_of, set_times, retain_users, prune_users, pruned, admit_pruned, admit,
}
use forever.RequestGuard.Seen.{kept, prune_seen-kept, length-kept, remember-new}

abbrev pub FewTimes : Bytes × List ℕ → Type 0
FewTimes (name, times) = length times ≤ max_requests_per_user_window

pub record Bounded (guard : RequestGuard) : Type 0 where
  pub same : guard.seen ≡ guard.seen_order
  pub seen : length guard.seen ≤ max_seen_requests
  pub recent : length guard.recent ≤ max_requests_per_window
  pub users : All FewTimes guard.recent_by_user

pub length-prune_times :
    (times : List ℕ) (now window : ℕ) → length (prune_times times now window) ≤ length times
unfolding prune_times
length-prune_times [] now window = omega arith
length-prune_times (t ∷ ts) now window =
    go (ltb window (now - t)) (length-prune_times ts now window)
  where
    go :
        (b : Bool)
        → length (prune_times ts now window) ≤ length ts
        → length (if b then prune_times ts now window else t ∷ ts) ≤ length (t ∷ ts)
    go true h = omega arith
    go false h = omega arith

few_times :
    (users : List (Bytes × List ℕ)) (name : Bytes)
    → All FewTimes users
    → length (times_of users name) ≤ max_requests_per_user_window
unfolding times_of
few_times [] name h = omega arith
few_times ((n, ts) ∷ users) name (h, hs) = go (bytes_eq n name) (few_times users name hs)
  where
    go :
        (b : Bool)
        → length (times_of users name) ≤ max_requests_per_user_window
        → length (elim b [ true ↦ ts | false ↦ times_of users name ]) ≤ max_requests_per_user_window
    go true r = h
    go false r = r

set_times-FewTimes :
    (users : List (Bytes × List ℕ)) (name : Bytes) (times : List ℕ)
    → length times ≤ max_requests_per_user_window
    → All FewTimes users
    → All FewTimes (set_times users name times)
unfolding set_times
set_times-FewTimes [] name times l h = (l, tt)
set_times-FewTimes ((n, ts) ∷ users) name times l (h, hs) =
    go (bytes_eq n name) (set_times-FewTimes users name times l hs)
  where
    go :
        (b : Bool)
        → All FewTimes (set_times users name times)
        → All FewTimes
            (elim b [ true ↦ (n, times) ∷ users | false ↦ (n, ts) ∷ set_times users name times ])
    go true r = (l, hs)
    go false r = (h, r)

retain_users-FewTimes :
    (users : List (Bytes × List ℕ)) (now : ℕ)
    → All FewTimes users
    → All FewTimes (retain_users users now)
unfolding retain_users
retain_users-FewTimes [] now h = tt
retain_users-FewTimes ((n, ts) ∷ users) now (h, hs) =
    go (is_empty times') (retain_users-FewTimes users now hs)
  where
    times' : List ℕ
    times' = prune_times ts now request_rate_window

    pick : Bool → List (Bytes × List ℕ)
    pick b = if b then retain_users users now else (n, times') ∷ retain_users users now

    go : (b : Bool) → All FewTimes (retain_users users now) → All FewTimes (pick b)
    go true r = r
    go false r = (omega (arith, length-prune_times ts now request_rate_window), r)

prune_users-FewTimes :
    (users : List (Bytes × List ℕ)) (now : ℕ)
    → All FewTimes users
    → All FewTimes (prune_users users now)
unfolding prune_users
prune_users-FewTimes users now h = go (leb max_seen_requests (length users))
  where
    go : (b : Bool) → All FewTimes (if b then retain_users users now else users)
    go true = retain_users-FewTimes users now h
    go false = h

-- The guard that was pruned holds less than it may.
pub record Ready (guard : RequestGuard) : Type 0 where
  pub same : guard.seen ≡ guard.seen_order
  pub seen : length guard.seen < max_seen_requests
  pub recent : length guard.recent ≤ max_requests_per_window
  pub users : All FewTimes guard.recent_by_user

pub pruned_seen :
    (guard : RequestGuard) (now : ℕ)
    → guard.seen ≡ guard.seen_order
    → prune_seen guard.seen guard.seen_order now ≡ (kept guard.seen now, kept guard.seen now)
pruned_seen guard now e =
    ap (λ l. prune_seen guard.seen l now) (sym e) ∙ prune_seen-kept guard.seen now

pub pruned-Ready : (guard : RequestGuard) (now : ℕ) → Bounded guard → Ready (pruned guard now)
unfolding pruned
pruned-Ready guard now h =
    let e = pruned_seen guard now h.same in
    record {
      same = ap (λ r. r.0) e ∙ sym (ap (λ r. r.1) e);
      seen = subst (λ r. length r.0 < max_seen_requests) (sym e) (length-kept guard.seen now);
      recent = omega (arith, length-prune_times guard.recent now request_rate_window, h.recent);
      users = prune_users-FewTimes guard.recent_by_user now h.users;
    }

module _ (guard : RequestGuard) (name : Bytes) (token now : ℕ) where
  abbrev pub times : List ℕ
  times = prune_times (times_of guard.recent_by_user name) now request_rate_window

  abbrev pub admitted : RequestGuard
  admitted = record {
    recent = guard.recent ++ now ∷ [];
    recent_by_user = set_times guard.recent_by_user name (times ++ now ∷ []);
    seen = remember guard.seen (name, token) now;
    seen_order = guard.seen_order ++ ((name, token), now) ∷ [];
  }

  -- What holds of every branch of `admit`.
  pub admit_branches {κ} :
      (P : RequestAdmission × RequestGuard → Type κ)
      → (is_seen (seen_at guard.seen (name, token)) ≡ true → P (RequestAdmission.duplicate, guard))
      → (is_seen (seen_at guard.seen (name, token)) ≡ false
          → P (
            RequestAdmission.rate_limited,
            record guard { recent_by_user = set_times guard.recent_by_user name times },
          ))
      → (is_seen (seen_at guard.seen (name, token)) ≡ false
          → length guard.recent < max_requests_per_window
          → length times < max_requests_per_user_window
          → P (RequestAdmission.allowed, admitted))
      → P (admit_pruned guard name token now)
  unfolding admit_pruned
  admit_branches P twice limited passed =
      go (is_seen (seen_at guard.seen (name, token))) refl
        (leb max_requests_per_window (length guard.recent)) refl
        (leb max_requests_per_user_window (length times)) refl
    where
      answer : Bool → Bool → RequestAdmission × RequestGuard
      answer a b =
          if a
          then (RequestAdmission.duplicate, guard)
          else if b
          then (
            RequestAdmission.rate_limited,
            record guard { recent_by_user = set_times guard.recent_by_user name times },
          )
          else (RequestAdmission.allowed, admitted)

      go :
          (a : Bool)
          → is_seen (seen_at guard.seen (name, token)) ≡ a
          → (b : Bool) → leb max_requests_per_window (length guard.recent) ≡ b
          → (c : Bool) → leb max_requests_per_user_window (length times) ≡ c
          → P (answer a (b || c))
      go true e b f c g = twice e
      go false e true f c g = limited e
      go false e false f true g = limited e
      go false e false f false g = passed e (ground arith) (ground arith)

  few : Ready guard → length times ≤ max_requests_per_user_window
  few h = omega (
    arith,
    length-prune_times (times_of guard.recent_by_user name) now request_rate_window,
    few_times guard.recent_by_user name h.users,
  )

  admit_pruned-Bounded : Ready guard → Bounded (admit_pruned guard name token now).1
  admit_pruned-Bounded h =
      admit_branches (λ r. Bounded r.1)
        (λ e. record {
          same = h.same;
          seen = omega (arith, h.seen);
          recent = h.recent;
          users = h.users;
        })
        (λ e. record {
          same = h.same;
          seen = omega (arith, h.seen);
          recent = h.recent;
          users = set_times-FewTimes guard.recent_by_user name times (few h) h.users;
        })
        (λ e f g. record {
          same =
              remember-new guard.seen (name, token) now e
              ∙ ap (λ l. l ++ ((name, token), now) ∷ []) h.same;
          seen =
              subst (λ l. length l ≤ max_seen_requests)
                (sym (remember-new guard.seen (name, token) now e))
                (omega (arith, h.seen, length-append guard.seen (((name, token), now) ∷ [])));
          recent = omega (arith, length-append guard.recent (now ∷ []));
          users =
              set_times-FewTimes guard.recent_by_user name (times ++ now ∷ [])
                (omega (arith, length-append times (now ∷ []))) h.users;
        })

pub admit-Bounded :
    (guard : RequestGuard) (username : Bytes) (token now : ℕ)
    → Bounded guard
    → Bounded (admit guard username token now).1
unfolding admit
admit-Bounded guard username token now h =
    admit_pruned-Bounded (pruned guard now) (to_ascii_lowercase username) token now
      (pruned-Ready guard now h)

pub new_guard-Bounded : Bounded new_guard
new_guard-Bounded = record { same = refl; seen = omega arith; recent = omega arith; users = tt }
