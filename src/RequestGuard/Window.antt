-- ===== src/RequestGuard/Window.antt =====
-- What the guard in distributed.rs admits: few requests in any second.
use forever.Prelude.{
  ℕ, ◌-◌, ◌≤◌, ◌≡◌, refl, Bool, true, false, List, [], ◌∷◌, ◌++◌, length, keep, leb, ltb,
  if◌then◌else◌, arith, length-keep-le,
}
use forever.Bytes.{Bytes}
use forever.Text.{to_ascii_lowercase}
use forever.RequestGuard.{
  RequestAdmission, RequestGuard, max_requests_per_window, request_rate_window, new_guard,
  prune_times, pruned, admit,
}
use forever.RequestGuard.Bounds.{Bounded, admit_branches, admit-Bounded, new_guard-Bounded}

-- The requests of the network, and the times of those that were admitted.
pub record Request : Type 0 where
  pub username : Bytes
  pub token : ℕ
  pub time : ℕ

abbrev pub log_of : RequestAdmission → ℕ → List ℕ → List ℕ
log_of RequestAdmission.allowed now log = now ∷ log
log_of RequestAdmission.duplicate now log = log
log_of RequestAdmission.rate_limited now log = log

unfoldable pub admit_all : List Request → RequestGuard → List ℕ → RequestGuard × List ℕ
admit_all [] guard log = (guard, log)
admit_all (r ∷ rs) guard log =
    let answer = admit guard r.username r.token r.time in
    admit_all rs answer.1 (log_of answer.0 r.time log)

-- The requests come in the order of their times.
abbrev pub InOrder : ℕ → List Request → Type 0
InOrder now [] = Unit
InOrder now (r ∷ rs) = (now ≤ r.time) × InOrder r.time rs

abbrev pub last_time : ℕ → List Request → ℕ
last_time now [] = now
last_time now (r ∷ rs) = last_time r.time rs

abbrev pub in_window : ℕ → List ℕ → ℕ
in_window now log = length (keep (λ time. leb (now - time) request_rate_window) log)

-- What was admitted and is still in the window is remembered.
abbrev Covers : ℕ → List ℕ → List ℕ → Type 0
Covers now log recent = (t : ℕ) → now ≤ t → in_window t log ≤ in_window t recent

in_window-prune_times :
    (times : List ℕ) (now t : ℕ)
    → now ≤ t
    → in_window t (prune_times times now request_rate_window) ≡ in_window t times
unfolding prune_times
in_window-prune_times [] now t h = refl
in_window-prune_times (x ∷ xs) now t h =
    go (ltb request_rate_window (now - x)) refl (in_window-prune_times xs now t h)
  where
    go :
        (b : Bool)
        → ltb request_rate_window (now - x) ≡ b
        → in_window t (prune_times xs now request_rate_window) ≡ in_window t xs
        → in_window t (if b then prune_times xs now request_rate_window else x ∷ xs)
          ≡ in_window t (x ∷ xs)
    go true e r = ground (arith, e, r)
    go false e r = refl

in_window-append : (xs : List ℕ) (now t : ℕ) → in_window t (xs ++ now ∷ []) ≡ in_window t (now ∷ xs)
in_window-append [] now t = refl
in_window-append (x ∷ xs) now t = ground (arith, in_window-append xs now t)

in_window-cons :
    (xs ys : List ℕ) (now t : ℕ)
    → in_window t xs ≤ in_window t ys
    → in_window t (now ∷ xs) ≤ in_window t (now ∷ ys)
in_window-cons xs ys now t h = ground (arith, h)

admit-Covers :
    (guard : RequestGuard) (username : Bytes) (token before now : ℕ) (log : List ℕ)
    → before ≤ now
    → Covers before log guard.recent
    → Covers now
        (log_of (admit guard username token now).0 now log)
        (admit guard username token now).1.recent
unfolding admit pruned
admit-Covers guard username token before now log late covers =
    admit_branches (pruned guard now) (to_ascii_lowercase username) token now
      (λ r. Covers now (log_of r.0 now log) r.1.recent) (λ e. still) (λ e. still)
      (λ e f g t h.
        omega (arith, in_window-append times now t, in_window-cons log times now t (still t h)))
  where
    times : List ℕ
    times = prune_times guard.recent now request_rate_window

    still : Covers now log times
    still t h = omega (arith, in_window-prune_times guard.recent now t h, covers t (omega arith))

admit_all-in_window :
    (rs : List Request) (guard : RequestGuard) (log : List ℕ) (now : ℕ)
    → InOrder now rs
    → Bounded guard
    → Covers now log guard.recent
    → in_window (last_time now rs) (admit_all rs guard log).1 ≤ max_requests_per_window
unfolding admit_all
admit_all-in_window [] guard log now o b c = omega (
  arith,
  c now (omega arith),
  length-keep-le (λ time. leb (now - time) request_rate_window) guard.recent,
  b.recent,
)
admit_all-in_window (r ∷ rs) guard log now (late, o) b c =
    admit_all-in_window rs (admit guard r.username r.token r.time).1
      (log_of (admit guard r.username r.token r.time).0 r.time log) r.time o
      (admit-Bounded guard r.username r.token r.time b)
      (admit-Covers guard r.username r.token now r.time log late c)

-- Of any searches that reach a new guard in the order of their times, at most 300 of those
-- admitted lie in the second before the last of them.
pub admit_all-rate :
    (rs : List Request)
    → InOrder 0 rs
    → in_window (last_time 0 rs) (admit_all rs new_guard []).1 ≤ max_requests_per_window
admit_all-rate rs o = admit_all-in_window rs new_guard [] 0 o new_guard-Bounded (λ t h. omega arith)

-- A guard within its bounds stays so through any searches: at most 300 recent times, at most 12 of
-- each user, at most 8192 seen searches, and the map of these holds what their queue holds.
pub admit_all-Bounded :
    (rs : List Request) (guard : RequestGuard) (log : List ℕ)
    → Bounded guard
    → Bounded (admit_all rs guard log).0
unfolding admit_all
admit_all-Bounded [] guard log b = b
admit_all-Bounded (r ∷ rs) guard log b =
    admit_all-Bounded rs (admit guard r.username r.token r.time).1
      (log_of (admit guard r.username r.token r.time).0 r.time log)
      (admit-Bounded guard r.username r.token r.time b)
