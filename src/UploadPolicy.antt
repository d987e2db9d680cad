-- ===== src/UploadPolicy.antt =====
-- src-tauri/src/connection/upload_policy.rs: which queued upload gets the next slot. A `HashSet` of
-- names is a list of them, and the counts that a `HashMap` gathers are a function of the name.
pub mod Waiting
pub mod Choice
pub mod Fair
pub mod Order
pub mod Fifo
pub mod Positions
pub mod Ranks
pub mod Numbers
use forever.Prelude.{
  ℕ, zero, suc, ◌+◌, ◌<◌, min, map, length, update_at, Bool, true, false, not, ◌&&◌, ◌||◌, Option,
  none, some, List, [], ◌∷◌, leb, ltb, ◌==◌, if◌then◌else◌, keep, all,
}
use forever.Bytes.{Bytes, bytes_eq}
use forever.Text.{to_ascii_lowercase}
use forever.Uploads.Types.{UploadStatus, UploadSnapshot, occupies_slot, is_queued}

pub record UploadPolicy : Type 0 where
  pub max_files_per_user : ℕ
  pub max_megabytes_per_user : ℕ
  pub prioritize_favorites : Bool
  pub prioritize_privileged : Bool

abbrev pub default_policy : UploadPolicy
default_policy = record {
  max_files_per_user = 100;
  max_megabytes_per_user = 10_000;
  prioritize_favorites = false;
  prioritize_privileged = false;
}

pub record FairScheduler : Type 0 where
  pub served : List Bytes
  pub policy : UploadPolicy
  pub favorites : List Bytes
  pub privileged : List Bytes

abbrev pub contains : List Bytes → Bytes → Bool
contains [] user = false
contains (name ∷ names) user = bytes_eq name user || contains names user

-- The number of active uploads of a user, whose name is in lower case.
unfoldable pub active : List UploadSnapshot → Bytes → ℕ
active [] user = 0
active (u ∷ us) user =
    let rest = active us user in
    if occupies_slot u.status && bytes_eq (to_ascii_lowercase u.username) user
    then suc rest
    else rest

-- The queued uploads, by index and name, from an index on.
unfoldable pub waiting_from : ℕ → List UploadSnapshot → List (ℕ × Bytes)
waiting_from i [] = []
waiting_from i (u ∷ us) =
    let rest = waiting_from (suc i) us in
    if is_queued u.status then (i, to_ascii_lowercase u.username) ∷ rest else rest

unfoldable pub minimum : (ℕ × Bytes → ℕ) → List (ℕ × Bytes) → Option ℕ
minimum f [] = none
minimum f (c ∷ cs) = elim (minimum f cs) [ none ↦ some (f c) | some m ↦ some (min (f c) m) ]

-- The key of `min_by_key`, and its order: false before true, each part before the next.
abbrev pub Key : Type 0
Key = Bool × Bool × Bool × ℕ

abbrev pub before : Bool → Bool → Bool → Bool
before a b next = if a then b && next else b || next

unfoldable pub key_lt : Key → Key → Bool
key_lt (a, b, c, i) (a', b', c', i') = before a a' (before b b' (before c c' (ltb i i')))

unfoldable pub key_of : FairScheduler → ℕ × Bytes → Key
key_of s (i, user) = (
  contains s.served user,
  not (s.policy.prioritize_favorites && contains s.favorites user),
  not (s.policy.prioritize_privileged && contains s.privileged user),
  i,
)

-- `min_by_key`: the first of the least ones.
unfoldable pub least : FairScheduler → ℕ × Bytes → List (ℕ × Bytes) → ℕ × Bytes
least s c [] = c
least s c (d ∷ cs) = least s (if key_lt (key_of s d) (key_of s c) then d else c) cs

-- A round ends when all candidates were served.
unfoldable pub new_round : FairScheduler → List (ℕ × Bytes) → FairScheduler
new_round s candidates =
    if all (λ c. contains s.served c.1) candidates then record s { served = [] } else s

unfoldable pub serve : FairScheduler → ℕ × Bytes → Option ℕ × FairScheduler
serve s (i, user) = (some i, record s { served = user ∷ s.served })

unfoldable pub choose : FairScheduler → List (ℕ × Bytes) → Option ℕ × FairScheduler
choose s [] = (none, new_round s [])
choose s (c ∷ cs) = let s' = new_round s (c ∷ cs) in serve s' (least s' c cs)

unfoldable pub candidates_of : List UploadSnapshot → ℕ → List (ℕ × Bytes)
candidates_of uploads m = keep (λ c. active uploads c.1 == m) (waiting_from 0 uploads)

unfoldable pub take_for : FairScheduler → List UploadSnapshot → Option ℕ → Option ℕ × FairScheduler
take_for s uploads none = (none, s)
take_for s uploads (some m) = choose s (candidates_of uploads m)

unfoldable pub take_next : FairScheduler → List UploadSnapshot → Option ℕ × FairScheduler
take_next s uploads =
    take_for s uploads (minimum (λ c. active uploads c.1) (waiting_from 0 uploads))

-- The loop of `refresh_positions`, with one round for each upload that may still be queued.
unfoldable pub positions_from :
    ℕ → ℕ → FairScheduler → List UploadSnapshot → List UploadSnapshot → List UploadSnapshot
positions_from zero position s simulation uploads = uploads
positions_from (suc rounds) position s simulation uploads =
    let next = take_next s simulation in
    elim next.0 [
      | none ↦ uploads
      | some i ↦
          positions_from rounds (position + 1) next.1
            (update_at simulation i (λ u. record u { status = UploadStatus.connecting }))
            (update_at uploads i (λ u. record u { queue_position = some position }))
    ]

unfoldable pub occupied_position : UploadSnapshot → UploadSnapshot
occupied_position u = record u { queue_position = if occupies_slot u.status then some 0 else none }

unfoldable pub refresh_positions : FairScheduler → List UploadSnapshot → List UploadSnapshot
unfolding positions_from occupied_position
refresh_positions s uploads =
    positions_from (length uploads) 1 s uploads (map occupied_position uploads)

unfoldable is_valid : UploadPolicy → Bool
is_valid policy =
    (leb 1 policy.max_files_per_user && leb policy.max_files_per_user 500)
    && (leb 1 policy.max_megabytes_per_user && leb policy.max_megabytes_per_user 1_000_000)
