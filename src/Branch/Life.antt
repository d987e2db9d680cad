-- ===== src/Branch/Life.antt =====
-- Every sequence of operations on a branch of branch.rs.
use forever.Prelude.{
  ℕ, ◌+◌, ◌≤◌, refl, ap, Bool, true, false, Option, none, some, List, [], ◌∷◌, length, length-drop,
  map, drop, min, ◌^◌, ◌-◌, is_empty, if◌then◌else◌, All, arith, length-map,
}
use forever.Bytes.{Bytes, bytes_eq}
use forever.Protocol.Error.{Result, ok, err, panicked}
use forever.Protocol.Types.{DistributedFrame, DistributedSearch}
use forever.Protocol.Distributed.{parse_distributed_search}
use forever.RequestGuard.{RequestAdmission, admit}
use forever.RequestGuard.Bounds.{admit-Bounded, new_guard-Bounded}
use forever.Branch.{
  Child, Branch, new, reset, broadcast, set_topology, set_level, set_root, refresh, add,
  relay_admitted, relay_parsed, relay, received, gone, encode,
}
use forever.Branch.Capacity.{
  Short, Placed, Fits, broadcast-Fits, set_topology-Fits, set_level-Fits, set_root-Fits,
  refresh-Fits, add-Fits,
}

new-Fits : (now : ℕ) → Fits (new now)
unfolding new
new-Fits now = record {
  children = omega arith;
  capacity = omega arith;
  queues = tt;
  placed = refl;
  guard = new_guard-Bounded;
}

reset-Fits : (branch : Branch) (now : ℕ) → Fits branch → Fits (reset branch now)
unfolding reset
reset-Fits branch now h = record {
  children = omega arith;
  capacity = omega arith;
  queues = tt;
  placed = refl;
  guard = h.guard;
}

relay_admitted-Fits :
    (branch : Branch) (frame : DistributedFrame) (a : RequestAdmission)
    → Fits branch
    → Fits (relay_admitted branch frame a)
unfolding relay_admitted
relay_admitted-Fits branch frame RequestAdmission.duplicate h = h
relay_admitted-Fits branch frame RequestAdmission.rate_limited h = h
relay_admitted-Fits branch frame RequestAdmission.allowed h =
    go (is_empty branch.children) (is_empty sent.children)
  where
    sent : Branch
    sent = broadcast (encode frame.code frame.payload) branch

    fits : Fits sent
    fits = broadcast-Fits (encode frame.code frame.payload) branch h

    go :
        (a b : Bool)
        → Fits (
            if a
            then branch
            else if b
            then sent
            else record sent { relayed = min (sent.relayed + 1) (2 ^ 64 - 1) })
    go true b = h
    go false true = fits
    go false false = record {
      children = fits.children;
      capacity = fits.capacity;
      queues = fits.queues;
      placed = fits.placed;
      guard = fits.guard;
    }

relay-Fits :
    (branch : Branch) (frame : DistributedFrame) (now : ℕ)
    → Fits branch
    → Fits (relay branch frame now)
unfolding relay relay_parsed
relay-Fits branch frame now h = go (parse_distributed_search frame)
  where
    go : (r : Result DistributedSearch) → Fits (relay_parsed branch frame now r)
    go (err e) = h
    go panicked = h
    go (ok search) =
        let answer = admit branch.guard search.username search.token now in
        relay_admitted-Fits (record branch { guard = answer.1 }) frame answer.0
          (record {
            children = h.children;
            capacity = h.capacity;
            queues = h.queues;
            placed = h.placed;
            guard = admit-Bounded branch.guard search.username search.token now h.guard;
          })

-- A change of the children one by one that lengthens no queue.
each-Short :
    (f : Child → Child) (cs : List Child)
    → ((c : Child) → length (f c).queue ≤ length c.queue)
    → All Short cs
    → All Short (map f cs)
each-Short f [] le h = tt
each-Short f (c ∷ cs) le (h, hs) = (omega (arith, le c), each-Short f cs le hs)

each-Fits :
    (f : Child → Child) (branch : Branch)
    → ((c : Child) → length (f c).queue ≤ length c.queue)
    → Fits branch
    → Fits (record branch { children = map f branch.children })
each-Fits f branch le h = record {
  children = omega (arith, length-map f branch.children, h.children);
  capacity = h.capacity;
  queues = each-Short f branch.children le h.queues;
  placed = placed branch.topology branch.children h.placed;
  guard = h.guard;
}
  where
    placed : (t : Option (ℕ × Bytes)) (cs : List Child) → Placed t cs → Placed t (map f cs)
    placed none cs e = ap (map f) e
    placed (some t) cs e = tt

received-Fits : (name : Bytes) (branch : Branch) → Fits branch → Fits (received name branch)
unfolding received
received-Fits name branch h =
    each-Fits
      (λ child.
        if bytes_eq child.name name then record child { queue = drop 1 child.queue } else child)
      branch (λ c. shorter (bytes_eq c.name name) c) h
  where
    shorter :
        (b : Bool) (c : Child)
        → length (if b then record c { queue = drop 1 c.queue } else c).queue ≤ length c.queue
    shorter true c = omega (arith, length-drop 1 c.queue)
    shorter false c = omega arith

gone-Fits : (name : Bytes) (branch : Branch) → Fits branch → Fits (gone name branch)
unfolding gone
gone-Fits name branch h =
    each-Fits (λ child. if bytes_eq child.name name then record child { closed = true } else child)
      branch (λ c. same (bytes_eq c.name name) c) h
  where
    same :
        (b : Bool) (c : Child)
        → length (if b then record c { closed = true } else c).queue ≤ length c.queue
    same true c = omega arith
    same false c = omega arith

-- What happens to a branch, with the time at which it does.
pub data Event : Type 0 where
  resets : ℕ → Event
  learns_topology : ℕ → Bytes → ℕ → Event
  learns_level : ℕ → ℕ → Event
  learns_root : Bytes → ℕ → Event
  -- the minimum speed, the ratio, and the node's own speed
  learns_speeds : Option ℕ → Option ℕ → ℕ → Event
  refreshes : Bool → Bool → ℕ → Event
  adds : Bytes → Bytes → Option Bytes → Event
  relays : DistributedFrame → ℕ → Event
  receives : Bytes → Event
  goes : Bytes → Event

abbrev pub step : Event → Branch → Branch
step (Event.resets now) branch = reset branch now
step (Event.learns_topology level root now) branch = set_topology branch level root now
step (Event.learns_level level now) branch = set_level branch level now
step (Event.learns_root root now) branch = set_root branch root now
step (Event.learns_speeds minimum ratio speed) branch = record branch {
  minimum_speed = minimum;
  speed_ratio = ratio;
  upload_speed = speed;
}
step (Event.refreshes enabled reachable now) branch = refresh branch enabled reachable now
step (Event.adds username own parent) branch = add branch username own parent
step (Event.relays frame now) branch = relay branch frame now
step (Event.receives name) branch = received name branch
step (Event.goes name) branch = gone name branch

abbrev pub steps : List Event → Branch → Branch
steps [] branch = branch
steps (e ∷ es) branch = steps es (step e branch)

step-Fits : (e : Event) (branch : Branch) → Fits branch → Fits (step e branch)
step-Fits (Event.resets now) branch h = reset-Fits branch now h
step-Fits (Event.learns_topology level root now) branch h =
    set_topology-Fits branch level root now h
step-Fits (Event.learns_level level now) branch h = set_level-Fits branch level now h
step-Fits (Event.learns_root root now) branch h = set_root-Fits branch root now h
step-Fits (Event.learns_speeds minimum ratio speed) branch h = record {
  children = h.children;
  capacity = h.capacity;
  queues = h.queues;
  placed = h.placed;
  guard = h.guard;
}
step-Fits (Event.refreshes enabled reachable now) branch h =
    refresh-Fits branch enabled reachable now h
step-Fits (Event.adds username own parent) branch h = add-Fits branch username own parent h
step-Fits (Event.relays frame now) branch h = relay-Fits branch frame now h
step-Fits (Event.receives name) branch h = received-Fits name branch h
step-Fits (Event.goes name) branch h = gone-Fits name branch h

steps-kept : (es : List Event) (branch : Branch) → Fits branch → Fits (steps es branch)
steps-kept [] branch h = h
steps-kept (e ∷ es) branch h = steps-kept es (step e branch) (step-Fits e branch h)

-- In every sequence of events a branch has at most as many children as its capacity and at most
-- four, at most 64 frames wait for each, it has none before it knows its place in the network, and
-- its guard keeps its bounds.
pub steps-Fits : (events : List Event) (now : ℕ) → Fits (steps events (new now))
steps-Fits events now = steps-kept events (new now) (new-Fits now)
