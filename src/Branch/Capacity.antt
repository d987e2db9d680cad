-- ===== src/Branch/Capacity.antt =====
-- How many children a branch of branch.rs has, and how much waits for each.
use forever.Prelude.{
  ℕ, ◌-◌, ◌/◌, min, ◌≤◌, ◌≡◌, refl, ap, sym, subst, Bool, true, false, not, ◌||◌, Option, none,
  some, List, [], ◌∷◌, ◌++◌, length, is_empty, keep, any, ltb, ◌==◌, if◌then◌else◌, All, All-append,
  All-keep, arith, and_parts, or_false, length-append,
}
use forever.Bytes.{Bytes, bytes_eq}
use forever.Text.{to_ascii_lowercase}
use forever.RequestGuard.Bounds.{Bounded}
use forever.Branch.{
  Child, Branch, max_children, stable_for, is_parent, child_queue, accepts, send, sent_to,
  broadcast, is_none, set_topology, set_level, set_root, capacity_for, child_capacity, refresh,
  accepting, is_unfit, add_to, add, root_frame, level_frame,
}

abbrev pub Short : Child → Type 0
Short child = length child.queue ≤ child_queue

-- Only a branch that knows its place has children.
abbrev pub Placed : Option (ℕ × Bytes) → List Child → Type 0
Placed none children = children ≡ []
Placed (some t) children = Unit

pub record Fits (branch : Branch) : Type 0 where
  pub children : length branch.children ≤ branch.capacity
  pub capacity : branch.capacity ≤ max_children
  pub queues : All Short branch.children
  pub placed : Placed branch.topology branch.children
  pub guard : Bounded branch.guard

length-sent_to : (bytes : Bytes) (cs : List Child) → length (sent_to bytes cs) ≤ length cs
unfolding sent_to
length-sent_to bytes [] = omega arith
length-sent_to bytes (c ∷ cs) = go (accepts c) (length-sent_to bytes cs)
  where
    go :
        (b : Bool)
        → length (sent_to bytes cs) ≤ length cs
        → length (if b then send bytes c ∷ sent_to bytes cs else sent_to bytes cs) ≤ length (c ∷ cs)
    go true h = omega arith
    go false h = omega arith

sent_to-Short : (bytes : Bytes) (cs : List Child) → All Short cs → All Short (sent_to bytes cs)
unfolding sent_to
sent_to-Short bytes [] h = tt
sent_to-Short bytes (c ∷ cs) (h, hs) = go (accepts c) refl (sent_to-Short bytes cs hs)
  where
    go :
        (b : Bool)
        → accepts c ≡ b
        → All Short (sent_to bytes cs)
        → All Short (if b then send bytes c ∷ sent_to bytes cs else sent_to bytes cs)
    go true e r =
        let room = (and_parts (not c.closed) (ltb (length c.queue) child_queue) e).1 in
        (ground (arith, room, length-append c.queue (bytes ∷ [])), r)
    go false e r = r

pub broadcast-Fits : (bytes : Bytes) (branch : Branch) → Fits branch → Fits (broadcast bytes branch)
unfolding broadcast sent_to
broadcast-Fits bytes branch h = record {
  children = omega (arith, length-sent_to bytes branch.children, h.children);
  capacity = h.capacity;
  queues = sent_to-Short bytes branch.children h.queues;
  placed = placed branch.topology branch.children h.placed;
  guard = h.guard;
}
  where
    placed : (t : Option (ℕ × Bytes)) (cs : List Child) → Placed t cs → Placed t (sent_to bytes cs)
    placed none cs e = ap (sent_to bytes) e
    placed (some t) cs e = tt

-- With another topology than none, a branch may have children.
pub set_topology-Fits :
    (branch : Branch) (level : ℕ) (root : Bytes) (now : ℕ)
    → Fits branch
    → Fits (set_topology branch level root now)
unfolding set_topology
set_topology-Fits branch level root now h =
    broadcast-Fits (root_frame root) (broadcast (level_frame level) branch') (
      broadcast-Fits (level_frame level) branch' (record {
        children = h.children;
        capacity = h.capacity;
        queues = h.queues;
        placed = tt;
        guard = h.guard;
      }))
  where
    branch' : Branch
    branch' = record branch {
      stable_since = if is_none branch.topology then now else branch.stable_since;
      topology = some (level, root);
    }

pub set_level-Fits :
    (branch : Branch) (level now : ℕ) → Fits branch → Fits (set_level branch level now)
unfolding set_level
set_level-Fits branch level now h = go branch.topology
  where
    go :
        (o : Option (ℕ × Bytes))
        → Fits (elim o [ none ↦ branch | some t ↦ set_topology branch level t.1 now ])
    go none = h
    go (some t) = set_topology-Fits branch level t.1 now h

pub set_root-Fits :
    (branch : Branch) (root : Bytes) (now : ℕ) → Fits branch → Fits (set_root branch root now)
unfolding set_root
set_root-Fits branch root now h = go branch.topology
  where
    go :
        (o : Option (ℕ × Bytes))
        → Fits (elim o [ none ↦ branch | some t ↦ set_topology branch t.0 root now ])
    go none = h
    go (some t) = set_topology-Fits branch t.0 root now h

-- The number of children that a branch takes on: none unless all conditions hold, and at most four.
capacity_for-max :
    (e r t : Bool) (stable speed minimum ratio : ℕ)
    → capacity_for e r t stable speed minimum ratio ≤ max_children
unfolding capacity_for
capacity_for-max e r t stable speed minimum ratio =
    go (not e || (not r || (not t || (ltb stable stable_for || (ltb speed minimum || ratio == 0)))))
  where
    go : (b : Bool) → (if b then 0 else min (speed / ratio / 100) max_children) ≤ max_children
    go true = omega arith
    go false = omega arith

child_capacity-max :
    (e r t : Bool) (stable speed : ℕ) (minimum ratio : Option ℕ)
    → child_capacity e r t stable speed minimum ratio ≤ max_children
unfolding child_capacity
child_capacity-max e r t stable speed none ratio = omega arith
child_capacity-max e r t stable speed (some m) none = omega arith
child_capacity-max e r t stable speed (some m) (some ratio) =
    capacity_for-max e r t stable speed m ratio

pub refresh-Fits :
    (branch : Branch) (enabled reachable : Bool) (now : ℕ)
    → Fits branch
    → Fits (refresh branch enabled reachable now)
unfolding refresh
refresh-Fits branch enabled reachable now h = go (ltb capacity (length children)) refl
  where
    children : List Child
    children = keep (λ child. not child.closed) branch.children

    capacity : ℕ
    capacity =
        child_capacity enabled reachable (not (is_none branch.topology)) (now - branch.stable_since)
          branch.upload_speed branch.minimum_speed branch.speed_ratio

    limit : capacity ≤ max_children
    limit =
        child_capacity-max enabled reachable (not (is_none branch.topology))
          (now - branch.stable_since) branch.upload_speed branch.minimum_speed branch.speed_ratio

    placed :
        (t : Option (ℕ × Bytes)) (cs : List Child)
        → Placed t cs
        → (Placed t []) × (Placed t (keep (λ child. not child.closed) cs))
    placed none cs e = (refl, ap (keep (λ (child : Child). not child.closed)) e)
    placed (some t) cs e = (tt, tt)

    go :
        (b : Bool)
        → ltb capacity (length children) ≡ b
        → Fits (record branch { capacity = capacity; children = if b then [] else children })
    go true e = record {
      children = omega arith;
      capacity = limit;
      queues = tt;
      placed = (placed branch.topology branch.children h.placed).0;
      guard = h.guard;
    }
    go false e = record {
      children = ground (arith, e);
      capacity = limit;
      queues = All-keep Short (λ child. not child.closed) branch.children h.queues;
      placed = (placed branch.topology branch.children h.placed).1;
      guard = h.guard;
    }

pub add-Fits :
    (branch : Branch) (username own : Bytes) (parent : Option Bytes)
    → Fits branch
    → Fits (add branch username own parent)
unfolding add add_to is_unfit
add-Fits branch username own parent h = go branch.topology refl
  where
    key : Bytes
    key = to_ascii_lowercase username

    not_false : (b : Bool) → not b ≡ false → b ≡ true
    not_false true e = refl
    not_false false e = absurd cc

    rest : Bytes → Bool
    rest root =
        is_empty key
        || (ltb 100 (length key)
            || (bytes_eq key (to_ascii_lowercase own)
                || (bytes_eq key (to_ascii_lowercase root)
                    || (is_parent parent key
                        || any (λ child. bytes_eq child.name key) branch.children))))

    child : ℕ → Bytes → Child
    child level root = record {
      name = key;
      queue = level_frame level ∷ (root_frame root ∷ []);
      closed = false;
    }

    joined :
        (level : ℕ) (root : Bytes) (b : Bool)
        → is_unfit branch root key own parent ≡ b
        → branch.topology ≡ some (level, root)
        → Fits (
            if b
            then branch
            else record branch { children = branch.children ++ child level root ∷ [] })
    joined level root true e t = h
    joined level root false e t =
        let room =
          (and_parts (not (is_none branch.topology)) (ltb (length branch.children) branch.capacity)
            (not_false (accepting branch) (or_false (not (accepting branch)) (rest root) e).0)).1 in
        record {
          children = ground (arith, room, length-append branch.children (child level root ∷ []));
          capacity = h.capacity;
          queues =
              All-append Short branch.children (child level root ∷ []) h.queues (omega arith, tt);
          placed = subst (λ o. Placed o (branch.children ++ child level root ∷ [])) (sym t) tt;
          guard = h.guard;
        }

    go :
        (o : Option (ℕ × Bytes))
        → branch.topology ≡ o
        → Fits (elim o [ none ↦ branch | some t ↦ add_to branch t.0 t.1 key own parent ])
    go none e = h
    go (some (level, root)) e = joined level root (is_unfit branch root key own parent) refl e
