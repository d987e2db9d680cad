-- ===== src/Branch.antt =====
-- src-tauri/src/connection/branch.rs: the children of a node of the distributed search network. A
-- `HashMap` of children is a list of them; each has the frames that its channel holds. The time is a
-- number of milliseconds, and what the receivers of the channels do is a step of its own.
pub mod Capacity
pub mod Frames
pub mod Life
use forever.Prelude.{
  ℕ, ◌+◌, ◌-◌, ◌*◌, ◌/◌, ◌^◌, min, Bool, true, false, not, ◌&&◌, ◌||◌, Option, none, some, List, [],
  ◌∷◌, ◌++◌, length, is_empty, keep, map, any, leb, ltb, ◌==◌, if◌then◌else◌, drop,
}
use forever.Bytes.{Bytes, bytes_eq, le_bytes}
use forever.Text.{to_ascii_lowercase}
use forever.Protocol.Error.{Result, ok, err, panicked}
use forever.Protocol.Codes.{distributed_branch_level_code, distributed_branch_root_code}
use forever.Protocol.Types.{DistributedFrame, DistributedSearch}
use forever.Protocol.Distributed.{parse_distributed_search}
use forever.RequestGuard.{RequestAdmission, RequestGuard, new_guard, admit}

abbrev pub stable_for : ℕ
stable_for = 60_000

abbrev pub max_children : ℕ
max_children = 4

abbrev pub child_queue : ℕ
child_queue = 64

-- `Child`: the channel, with what it holds, and whether its receiver is gone.
pub record Child : Type 0 where
  pub name : Bytes
  pub queue : List Bytes
  pub closed : Bool

pub record Branch : Type 0 where
  pub children : List Child
  pub topology : Option (ℕ × Bytes)
  pub stable_since : ℕ
  pub minimum_speed : Option ℕ
  pub speed_ratio : Option ℕ
  pub upload_speed : ℕ
  pub capacity : ℕ
  pub relayed : ℕ
  pub guard : RequestGuard

unfoldable pub new : ℕ → Branch
new now = record {
  children = [];
  topology = none;
  stable_since = now;
  minimum_speed = none;
  speed_ratio = none;
  upload_speed = 0;
  capacity = 0;
  relayed = 0;
  guard = new_guard;
}

unfoldable pub reset : Branch → ℕ → Branch
reset branch now = record branch {
  children = [];
  topology = none;
  capacity = 0;
  stable_since = now;
}

-- The length is put into 32 bits by `as`.
unfoldable pub encode : ℕ → Bytes → Bytes
encode code payload = le_bytes 4 (length payload + 1) ++ (code ∷ payload)

unfoldable pub root_frame : Bytes → Bytes
unfolding encode
root_frame root = encode distributed_branch_root_code (le_bytes 4 (length root) ++ root)

unfoldable pub level_frame : ℕ → Bytes
unfolding encode
level_frame level = encode distributed_branch_level_code (le_bytes 4 level)

-- `try_send`: the channel takes it, or not.
abbrev pub accepts : Child → Bool
accepts child = not child.closed && ltb (length child.queue) child_queue

abbrev pub send : Bytes → Child → Child
send bytes child = record child { queue = child.queue ++ bytes ∷ [] }

-- The children whose channels take the frame stay, with it.
unfoldable pub sent_to : Bytes → List Child → List Child
sent_to bytes [] = []
sent_to bytes (child ∷ children) =
    let rest = sent_to bytes children in if accepts child then send bytes child ∷ rest else rest

unfoldable pub broadcast : Bytes → Branch → Branch
unfolding sent_to
broadcast bytes branch = record branch { children = sent_to bytes branch.children }

abbrev pub is_none : Option (ℕ × Bytes) → Bool
is_none none = true
is_none (some t) = false

unfoldable pub set_topology : Branch → ℕ → Bytes → ℕ → Branch
unfolding broadcast root_frame level_frame
set_topology branch level root now =
    let branch' = record branch {
      stable_since = if is_none branch.topology then now else branch.stable_since;
      topology = some (level, root);
    } in
    broadcast (root_frame root) (broadcast (level_frame level) branch')

unfoldable pub set_level : Branch → ℕ → ℕ → Branch
unfolding set_topology
set_level branch level now = elim branch.topology [
  | none ↦ branch
  | some t ↦ set_topology branch level t.1 now
]

unfoldable pub set_root : Branch → Bytes → ℕ → Branch
unfolding set_topology
set_root branch root now = elim branch.topology [
  | none ↦ branch
  | some t ↦ set_topology branch t.0 root now
]

-- With a speed and a ratio of 32 bits; the ratio is in hundreds of bytes per second.
unfoldable pub capacity_for : Bool → Bool → Bool → ℕ → ℕ → ℕ → ℕ → ℕ
capacity_for enabled reachable topology stable speed minimum ratio =
    if not enabled
      || (not reachable
          || (not topology || (ltb stable stable_for || (ltb speed minimum || ratio == 0))))
    then 0
    else min (speed / ratio / 100) max_children

unfoldable pub child_capacity : Bool → Bool → Bool → ℕ → ℕ → Option ℕ → Option ℕ → ℕ
unfolding capacity_for
child_capacity enabled reachable topology stable speed none ratio = 0
child_capacity enabled reachable topology stable speed (some minimum) none = 0
child_capacity enabled reachable topology stable speed (some minimum) (some ratio) =
    capacity_for enabled reachable topology stable speed minimum ratio

unfoldable pub refresh : Branch → Bool → Bool → ℕ → Branch
unfolding child_capacity
refresh branch enabled reachable now =
    let children = keep (λ child. not child.closed) branch.children in
    let capacity =
      child_capacity enabled reachable (not (is_none branch.topology)) (now - branch.stable_since)
        branch.upload_speed branch.minimum_speed branch.speed_ratio in
    record branch {
      capacity = capacity;
      children = if ltb capacity (length children) then [] else children;
    }

abbrev pub accepting : Branch → Bool
accepting branch = not (is_none branch.topology) && ltb (length branch.children) branch.capacity

abbrev pub is_parent : Option Bytes → Bytes → Bool
is_parent none key = false
is_parent (some parent) key = bytes_eq (to_ascii_lowercase parent) (to_ascii_lowercase key)

unfoldable pub is_unfit : Branch → Bytes → Bytes → Bytes → Option Bytes → Bool
is_unfit branch root key own parent =
    not (accepting branch)
    || (is_empty key
        || (ltb 100 (length key)
            || (bytes_eq key (to_ascii_lowercase own)
                || (bytes_eq key (to_ascii_lowercase root)
                    || (is_parent parent key
                        || any (λ child. bytes_eq child.name key) branch.children)))))

unfoldable pub add_to : Branch → ℕ → Bytes → Bytes → Bytes → Option Bytes → Branch
unfolding is_unfit root_frame level_frame
add_to branch level root key own parent =
    if is_unfit branch root key own parent then branch else record branch {
      children =
          branch.children
          ++ record {
            name = key;
            queue = level_frame level ∷ (root_frame root ∷ []);
            closed = false;
          }
            ∷ [];
    }

unfoldable pub add : Branch → Bytes → Bytes → Option Bytes → Branch
unfolding add_to
add branch username own parent = elim branch.topology [
  | none ↦ branch
  | some t ↦ add_to branch t.0 t.1 (to_ascii_lowercase username) own parent
]

-- A search that was admitted goes to every child.
unfoldable pub relay_admitted : Branch → DistributedFrame → RequestAdmission → Branch
unfolding broadcast encode
relay_admitted branch frame RequestAdmission.duplicate = branch
relay_admitted branch frame RequestAdmission.rate_limited = branch
relay_admitted branch frame RequestAdmission.allowed =
    if is_empty branch.children
    then branch
    else let branch' = broadcast (encode frame.code frame.payload) branch in
      if is_empty branch'.children
      then branch'
      else record branch' { relayed = min (branch'.relayed + 1) (2 ^ 64 - 1) }

unfoldable pub relay_parsed : Branch → DistributedFrame → ℕ → Result DistributedSearch → Branch
unfolding relay_admitted
relay_parsed branch frame now (err e) = branch
relay_parsed branch frame now panicked = branch
relay_parsed branch frame now (ok search) =
    let answer = admit branch.guard search.username search.token now in
    relay_admitted (record branch { guard = answer.1 }) frame answer.0

unfoldable pub relay : Branch → DistributedFrame → ℕ → Branch
unfolding relay_parsed
relay branch frame now = relay_parsed branch frame now (parse_distributed_search frame)

-- What the tasks of the children do: one takes a frame off its channel, or ends.
unfoldable pub received : Bytes → Branch → Branch
received name branch = record branch {
  children =
      map
        (λ child.
          if bytes_eq child.name name then record child { queue = drop 1 child.queue } else child)
        branch.children;
}

unfoldable pub gone : Bytes → Branch → Branch
gone name branch = record branch {
  children =
      map (λ child. if bytes_eq child.name name then record child { closed = true } else child)
        branch.children;
}
