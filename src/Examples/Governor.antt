-- ===== src/Examples/Governor.antt =====
-- A session: the server announces ten seconds, searches of every lane wait.
use forever.Prelude.{ℕ, ◌≡◌, refl, Bool, true, false, Option, none, some, [], ◌∷◌}
use forever.SearchGovernor.{SearchLane, from_secs, set_online, offline, priority, take_next}
use forever.SearchGovernor.Priority.{Chosen, take_next-Chosen}
use forever.SearchGovernor.Trace.{Event, started, run}
use forever.SearchGovernor.Spacing.{Spaced, run-Spaced}

run-Spaced_example :
    Spaced
      (run
        (Event.went_online true
          ∷ Event.interval 10
          ∷ Event.asked (λ lane. true)
          ∷ Event.elapsed (from_secs 10)
          ∷ Event.asked (λ lane. true)
          ∷ [])
        started).grants
run-Spaced_example = run-Spaced (
    Event.went_online true
    ∷ Event.interval 10
    ∷ Event.asked (λ lane. true)
    ∷ Event.elapsed (from_secs 10)
    ∷ Event.asked (λ lane. true)
    ∷ [])

-- A radar search waits, if the flag says so.
abbrev flag : Bool → SearchLane → Bool × Option ℕ
flag true SearchLane.radar = (false, some 7)
flag true SearchLane.user = (true, none)
flag true SearchLane.relay = (true, none)
flag true SearchLane.wanted = (true, none)
flag false lane = (false, none)

flag-idle : (q : Bool) (lane : SearchLane) → (flag q lane).1 ≡ none → (flag q lane).0 ≡ q
flag-idle true SearchLane.radar h = cc
flag-idle true SearchLane.user h = refl
flag-idle true SearchLane.relay h = refl
flag-idle true SearchLane.wanted h = refl
flag-idle false lane h = refl

take_next-Chosen_example :
    Chosen flag
      (set_online offline true)
      100
      priority
      true
      (take_next flag 100 (set_online offline true) true)
take_next-Chosen_example = take_next-Chosen flag flag-idle (set_online offline true) 100 true
