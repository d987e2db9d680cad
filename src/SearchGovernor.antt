-- ===== src/SearchGovernor.antt =====
-- src-tauri/src/connection/search_governor.rs: the one send budget of the searches this client
-- starts. An `Instant` is a number of nanoseconds; the mutex is the explicit state.
pub mod Ready
pub mod Trace
pub mod Spacing
pub mod Priority
use forever.Prelude.{
  ℕ, ◌+◌, ◌*◌, max, Bool, true, false, not, Option, none, some, List, [], ◌∷◌, leb, ltb,
  if◌then◌else◌,
}

abbrev pub from_secs : ℕ → ℕ
from_secs s = s * 1000000000

abbrev pub search_spacing : ℕ
search_spacing = from_secs 5

pub data SearchLane : Type 0 where
  user : SearchLane
  relay : SearchLane
  radar : SearchLane
  wanted : SearchLane

abbrev pub priority : List SearchLane
priority = SearchLane.user ∷ SearchLane.relay ∷ SearchLane.radar ∷ SearchLane.wanted ∷ []

abbrev pub is_wanted : SearchLane → Bool
is_wanted SearchLane.wanted = true
is_wanted SearchLane.user = false
is_wanted SearchLane.relay = false
is_wanted SearchLane.radar = false

pub record Budget : Type 0 where
  pub online : Bool
  pub wishlist_seconds : Option ℕ
  pub wishlist_announced_at : Option ℕ
  pub last_send : Option ℕ
  pub last_wishlist : Option ℕ

abbrev pub offline : Budget
offline = record {
  online = false;
  wishlist_seconds = none;
  wishlist_announced_at = none;
  last_send = none;
  last_wishlist = none;
}

abbrev pub ordinary : Option ℕ → ℕ → ℕ
ordinary none now = now
ordinary (some sent) now = sent + search_spacing

abbrev pub or : Option ℕ → Option ℕ → Option ℕ
or (some a) b = some a
or none b = b

-- The slot of the lane `Wanted`: the interval, its anchor, the earliest ordinary slot, now.
pub wanted_slot : Option ℕ → Option ℕ → ℕ → ℕ → Option ℕ
wanted_slot none anchor earliest now = none
wanted_slot (some seconds) none earliest now = none
wanted_slot (some seconds) (some anchor) earliest now =
    if ltb 0 seconds then some (max (max earliest (anchor + from_secs seconds)) now) else none

pub next_slot : Budget → SearchLane → ℕ → Option ℕ
next_slot b lane now =
    if not b.online
    then none
    else let earliest = ordinary b.last_send now in
      if not (is_wanted lane)
      then some (max earliest now)
      else wanted_slot b.wishlist_seconds (or b.last_wishlist b.wishlist_announced_at) earliest now

pub reached : Option ℕ → ℕ → Bool
reached none now = false
reached (some slot) now = leb slot now

pub ready : Budget → SearchLane → ℕ → Bool
ready b lane now = reached (next_slot b lane now) now

pub set_online : Budget → Bool → Budget
set_online b online = record b {
  online = online;
  wishlist_seconds = none;
  wishlist_announced_at = none;
}

pub set_wishlist_interval : Budget → ℕ → ℕ → Budget
set_wishlist_interval b seconds now = record b {
  wishlist_seconds = some seconds;
  wishlist_announced_at = or b.wishlist_announced_at (some now);
}

pub sent : Budget → SearchLane → ℕ → Budget
sent b lane now = record b {
  last_send = some now;
  last_wishlist = if is_wanted lane then some now else b.last_wishlist;
}

-- `pending` is a closure that may change what it captures, the queue state `σ`.
module _ {ℓ κ} {σ : Type ℓ} {A : Type κ} where
  pub offered :
      SearchLane
      → ℕ
      → Budget
      → (σ → Option (SearchLane × A) × (σ × Budget))
      → σ × Option A
      → Option (SearchLane × A) × (σ × Budget)
  offered lane now b rest (q, some request) = (some (lane, request), (q, sent b lane now))
  offered lane now b rest (q, none) = rest q

  pub take_among :
      (σ → SearchLane → σ × Option A)
      → ℕ
      → Budget
      → List SearchLane
      → σ
      → Option (SearchLane × A) × (σ × Budget)
  take_among pending now b [] q = (none, (q, b))
  take_among pending now b (lane ∷ lanes) q =
      let rest = take_among pending now b lanes in
      if ready b lane now then offered lane now b rest (pending q lane) else rest q

  pub take_next :
      (σ → SearchLane → σ × Option A) → ℕ → Budget → σ → Option (SearchLane × A) × (σ × Budget)
  take_next pending now b q = take_among pending now b priority q
