-- ===== src/SearchGovernor/Trace.antt =====
-- A session of the search governor as a sequence of events on a clock that never goes back.
use forever.Prelude.{ℕ, ◌+◌, Bool, true, Option, none, some, List, [], ◌∷◌, if◌then◌else◌}
use forever.SearchGovernor.{
  Budget, SearchLane, offline, sent, set_online, set_wishlist_interval, take_next,
}

-- What the code calls: the session, the server's interval, the actor with the lanes that have
-- a search waiting, and the write of a search that was taken.
pub data Event : Type 0 where
  elapsed : ℕ → Event
  went_online : Bool → Event
  interval : ℕ → Event
  asked : (SearchLane → Bool) → Event
  written : SearchLane → Event

-- A search that was let through: its lane, the instant, and the interval then in force.
pub record Grant : Type 0 where
  pub lane : SearchLane
  pub at : ℕ
  pub seconds : Option ℕ

pub record Run : Type 0 where
  pub clock : ℕ
  pub governor : Budget
  pub grants : List Grant

abbrev pub started : Run
started = record { clock = 0; governor = offline; grants = [] }

abbrev pub waiting : (SearchLane → Bool) → Bool → SearchLane → Bool × Option Bool
waiting lanes q lane = (q, if lanes lane then some true else none)

unfoldable pub granted : Run → Option (SearchLane × Bool) × (Bool × Budget) → Run
granted r (none, (q, b)) = record r { governor = b }
granted r (some (lane, request), (q, b)) = record r {
  governor = b;
  grants = record { lane = lane; at = r.clock; seconds = r.governor.wishlist_seconds } ∷ r.grants;
}

unfoldable pub step : Event → Run → Run
step (Event.elapsed d) r = record r { clock = r.clock + d }
step (Event.went_online on) r = record r { governor = set_online r.governor on }
step (Event.interval s) r = record r { governor = set_wishlist_interval r.governor s r.clock }
step (Event.asked lanes) r = granted r (take_next (waiting lanes) r.clock r.governor true)
step (Event.written lane) r = record r { governor = sent r.governor lane r.clock }

unfoldable pub run : List Event → Run → Run
run [] r = r
run (e ∷ es) r = run es (step e r)
