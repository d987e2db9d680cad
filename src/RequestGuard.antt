-- ===== src/RequestGuard.antt =====
-- src-tauri/src/connection/distributed.rs: the guard on searches that peers send, and the hub's
-- state. A time is a number of milliseconds; `duration_since` is 0 for a time that is not past. A
-- `HashMap` is a list of its entries in the order in which they came.
pub mod Window
pub mod Duplicates
pub mod Seen
pub mod Bounds
use forever.Prelude.{
  ℕ, ◌+◌, ◌-◌, ◌^◌, min, Bool, true, false, not, ◌&&◌, ◌||◌, Option, none, some, List, [], ◌∷◌,
  ◌++◌, length, is_empty, leb, ltb, ◌==◌, if◌then◌else◌,
}
use forever.Bytes.{Bytes, bytes_eq}
use forever.Text.{to_ascii_lowercase}

abbrev pub request_rate_window : ℕ
request_rate_window = 1_000

abbrev pub max_requests_per_window : ℕ
max_requests_per_window = 300

abbrev pub max_requests_per_user_window : ℕ
max_requests_per_user_window = 12

abbrev pub duplicate_ttl : ℕ
duplicate_ttl = 300_000

abbrev pub max_seen_requests : ℕ
max_seen_requests = 8_192

pub data RequestAdmission : Type 0 where
  allowed : RequestAdmission
  duplicate : RequestAdmission
  rate_limited : RequestAdmission

-- A user, in lower case, and the token of a search.
abbrev pub Key : Type 0
Key = Bytes × ℕ

abbrev pub key_eq : Key → Key → Bool
key_eq (name, token) (name', token') = bytes_eq name name' && token == token'

pub record RequestGuard : Type 0 where
  pub recent : List ℕ
  pub recent_by_user : List (Bytes × List ℕ)
  pub seen : List (Key × ℕ)
  pub seen_order : List (Key × ℕ)

abbrev pub new_guard : RequestGuard
new_guard = record { recent = []; recent_by_user = []; seen = []; seen_order = [] }

unfoldable pub prune_times : List ℕ → ℕ → ℕ → List ℕ
prune_times [] now window = []
prune_times (time ∷ times) now window =
    let rest = prune_times times now window in
    if ltb window (now - time) then rest else time ∷ times

-- `HashMap::get`, `remove` and `insert` on the seen requests.
unfoldable pub seen_at : List (Key × ℕ) → Key → Option ℕ
seen_at [] key = none
seen_at ((k, time) ∷ seen) key =
    let rest = seen_at seen key in elim (key_eq k key) [ true ↦ some time | false ↦ rest ]

unfoldable pub forget : List (Key × ℕ) → Key → List (Key × ℕ)
forget [] key = []
forget ((k, time) ∷ seen) key =
    let rest = forget seen key in elim (key_eq k key) [ true ↦ seen | false ↦ (k, time) ∷ rest ]

unfoldable pub remember : List (Key × ℕ) → Key → ℕ → List (Key × ℕ)
remember [] key now = (key, now) ∷ []
remember ((k, time) ∷ seen) key now =
    let rest = remember seen key now in
    elim (key_eq k key) [ true ↦ (k, now) ∷ seen | false ↦ (k, time) ∷ rest ]

abbrev pub is_at : Option ℕ → ℕ → Bool
is_at none time = false
is_at (some current) time = current == time

-- A request that leaves the queue is forgotten, if it was not seen again.
unfoldable pub forget_at : List (Key × ℕ) → Key → ℕ → List (Key × ℕ)
unfolding seen_at forget
forget_at seen key time = if is_at (seen_at seen key) time then forget seen key else seen

-- `prune_seen`: the seen requests and their queue.
unfoldable pub prune_seen : List (Key × ℕ) → List (Key × ℕ) → ℕ → List (Key × ℕ) × List (Key × ℕ)
unfolding forget_at
prune_seen seen [] now = (seen, [])
prune_seen seen ((key, time) ∷ order) now =
    let rest = prune_seen (forget_at seen key time) order now in
    if ltb duplicate_ttl (now - time) || leb max_seen_requests (length seen)
    then rest
    else (seen, (key, time) ∷ order)

-- The recent times of a user: `entry(…).or_default()`, and the write to it.
unfoldable pub times_of : List (Bytes × List ℕ) → Bytes → List ℕ
times_of [] name = []
times_of ((n, times) ∷ users) name =
    let rest = times_of users name in elim (bytes_eq n name) [ true ↦ times | false ↦ rest ]

unfoldable pub set_times : List (Bytes × List ℕ) → Bytes → List ℕ → List (Bytes × List ℕ)
set_times [] name times = (name, times) ∷ []
set_times ((n, old) ∷ users) name times =
    let rest = set_times users name times in
    elim (bytes_eq n name) [ true ↦ (n, times) ∷ users | false ↦ (n, old) ∷ rest ]

unfoldable pub retain_users : List (Bytes × List ℕ) → ℕ → List (Bytes × List ℕ)
unfolding prune_times
retain_users [] now = []
retain_users ((n, times) ∷ users) now =
    let rest = retain_users users now in
    let times' = prune_times times now request_rate_window in
    if is_empty times' then rest else (n, times') ∷ rest

unfoldable pub prune_users : List (Bytes × List ℕ) → ℕ → List (Bytes × List ℕ)
unfolding retain_users
prune_users users now =
    if leb max_seen_requests (length users) then retain_users users now else users

-- The start of `admit`.
unfoldable pub pruned : RequestGuard → ℕ → RequestGuard
unfolding prune_times prune_seen prune_users
pruned guard now =
    let seen = prune_seen guard.seen guard.seen_order now in
    record {
      recent = prune_times guard.recent now request_rate_window;
      recent_by_user = prune_users guard.recent_by_user now;
      seen = seen.0;
      seen_order = seen.1;
    }

abbrev pub is_seen : Option ℕ → Bool
is_seen none = false
is_seen (some time) = true

-- The rest of it, on the guard that was pruned.
unfoldable pub admit_pruned : RequestGuard → Bytes → ℕ → ℕ → RequestAdmission × RequestGuard
unfolding times_of set_times prune_times seen_at remember
admit_pruned guard name token now =
    let times = prune_times (times_of guard.recent_by_user name) now request_rate_window in
    if is_seen (seen_at guard.seen (name, token))
    then (RequestAdmission.duplicate, guard)
    else if leb max_requests_per_window (length guard.recent)
        || leb max_requests_per_user_window (length times)
    then (
      RequestAdmission.rate_limited,
      record guard { recent_by_user = set_times guard.recent_by_user name times },
    )
    else (
      RequestAdmission.allowed,
      record {
        recent = guard.recent ++ now ∷ [];
        recent_by_user = set_times guard.recent_by_user name (times ++ now ∷ []);
        seen = remember guard.seen (name, token) now;
        seen_order = guard.seen_order ++ ((name, token), now) ∷ [];
      },
    )

unfoldable pub admit : RequestGuard → Bytes → ℕ → ℕ → RequestAdmission × RequestGuard
unfolding pruned admit_pruned
admit guard username token now =
    admit_pruned (pruned guard now) (to_ascii_lowercase username) token now
