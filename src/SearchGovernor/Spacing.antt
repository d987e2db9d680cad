-- ===== src/SearchGovernor/Spacing.antt =====
-- The distance between the searches that search_governor.rs lets through.
use forever.Prelude.{
  ℕ, ◌+◌, ◌≤◌, ◌≡◌, refl, sym, subst, Bool, true, Option, none, some, List, [], ◌∷◌, All, All-imp,
  if◌then◌else◌, max, ◌&&◌, and_parts, arith, Bool-cases, inl, inr,
}
use forever.SearchGovernor.{
  Budget, SearchLane, is_wanted, ready, from_secs, search_spacing, sent, set_online,
  set_wishlist_interval, take_among, take_next, offered, priority,
}
use forever.SearchGovernor.Ready.{Covers, MaySend, ready-MaySend}
use forever.SearchGovernor.Trace.{Event, Grant, Run, started, waiting, granted, step, run}

-- What `take_next` did to the budget: nothing, or the one send of a lane that was ready.
abbrev pub Taken {ℓ κ} :
    {σ : Type ℓ} {A : Type κ} → Budget → ℕ → Option (SearchLane × A) × (σ × Budget) → Type 0
Taken b now (none, (q, b')) = b' ≡ b
Taken b now (some (lane, a), (q, b')) = (ready b lane now ≡ true) × (b' ≡ sent b lane now)

module _ {ℓ κ} {σ : Type ℓ} {A : Type κ} where
  offered-Taken :
      (lane : SearchLane) (now : ℕ) (b : Budget) (rest : σ → Option (SearchLane × A) × (σ × Budget))
      → ready b lane now ≡ true
      → ((q : σ) → Taken b now (rest q))
      → (p : σ × Option A) → Taken b now (offered lane now b rest p)
  unfolding offered
  offered-Taken lane now b rest holds others (q, none) = others q
  offered-Taken lane now b rest holds others (q, some a) = (holds, refl)

module _ {ℓ κ} {σ : Type ℓ} {A : Type κ} (pending : σ → SearchLane → σ × Option A) where
  take_among-Taken :
      (now : ℕ) (b : Budget) (lanes : List SearchLane) (q : σ)
      → Taken b now (take_among pending now b lanes q)
  unfolding take_among
  take_among-Taken now b [] q = refl
  take_among-Taken now b (lane ∷ lanes) q = elim (Bool-cases (ready b lane now)) [
    | inr fails ↦ rw fails (take_among-Taken now b lanes q)
    | inl holds ↦
        rw holds (offered-Taken lane now b _ holds (take_among-Taken now b lanes) (pending q lane))
  ]

-- The seconds of the server's interval, if it announced one.
abbrev pub announced : Option ℕ → ℕ
announced none = 0
announced (some s) = s

-- What must lie between a send and an earlier one: the spacing, and between two of `Wanted` the
-- interval that is in force at the later one.
abbrev pub gap : Grant → Grant → ℕ
gap g h =
    if is_wanted g.lane && is_wanted h.lane
    then max search_spacing (from_secs (announced g.seconds))
    else search_spacing

abbrev pub Apart : Grant → Grant → Type 0
Apart g h = h.at + gap g h ≤ g.at

-- Each send, the newest first, is apart from every one before it.
abbrev pub Spaced : List Grant → Type 0
Spaced [] = Unit
Spaced (g ∷ gs) = All (Apart g) gs × Spaced gs

-- The budget remembers the send.
abbrev Known : ℕ → Budget → Grant → Type 0
Known clock b g =
    (g.at ≤ clock)
    × (Covers b.last_send g.at × (is_wanted g.lane ≡ true → Covers b.last_wishlist g.at))

record Good (r : Run) : Type 0 where
  known : All (Known r.clock r.governor) r.grants
  spaced : Spaced r.grants

-- A send at the clock's time keeps what is known.
sent-Known :
    (clock : ℕ) (b : Budget) (lane : SearchLane) (g : Grant)
    → Known clock b g
    → Known clock (sent b lane clock) g
unfolding sent
sent-Known clock b lane g (le, (last, wish)) = (
  le,
  (
    (clock, (refl, le)),
    λ w. elim (Bool-cases (is_wanted lane)) [
      | inl holds ↦ rw holds (clock, (refl, le))
      | inr fails ↦ rw fails (wish w)
    ],
  ),
)

sent-Covers :
    (clock : ℕ) (b : Budget) (lane : SearchLane) (seconds : Option ℕ)
    → Known clock (sent b lane clock) (record { lane = lane; at = clock; seconds = seconds })
unfolding sent
sent-Covers clock b lane seconds =
    (omega arith, ((clock, (refl, omega arith)), λ w. rw w (clock, (refl, omega arith))))

ready-Apart :
    (clock : ℕ) (b : Budget) (lane : SearchLane) (g : Grant)
    → MaySend b lane clock
    → Known clock b g
    → Apart (record { lane = lane; at = clock; seconds = b.wishlist_seconds }) g
ready-Apart clock b lane g (on, (spaced, wish)) (le, (last, known)) =
    elim (Bool-cases (is_wanted lane && is_wanted g.lane)) [
      | inr ordinary ↦ rw ordinary (spaced g.at last)
      | inl both ↦
          let (w, w') = and_parts (is_wanted lane) (is_wanted g.lane) both in
          let (s, (e, (pos, apart))) = wish w in
          let interval_over : g.at + from_secs s ≤ clock = apart g.at (known w') in
          let spacing_over : g.at + search_spacing ≤ clock = spaced g.at last in
          rw (both, e) (omega (arith, interval_over, spacing_over))
    ]

granted-Good :
    (r : Run) (res : Option (SearchLane × Bool) × (Bool × Budget))
    → Taken r.governor r.clock res
    → Good r
    → Good (granted r res)
unfolding granted
granted-Good r (none, (q, b)) e good = record { known = rw e good.known; spaced = good.spaced }
granted-Good r (some (lane, a), (q, b)) (holds, e) good = record {
  known =
      subst (λ b. All (Known r.clock b) (granted r (some (lane, a), (q, b))).grants) (sym e)
        (
          sent-Covers r.clock r.governor lane r.governor.wishlist_seconds,
          All-imp (Known r.clock r.governor) _ r.grants (sent-Known r.clock r.governor lane)
              good.known,
        );
  spaced = (
    All-imp _ _ r.grants
        (λ g. ready-Apart r.clock r.governor lane g (ready-MaySend r.governor lane r.clock holds))
        good.known,
    good.spaced,
  );
}

step-Good : (e : Event) (r : Run) → Good r → Good (step e r)
unfolding step set_online set_wishlist_interval take_next
step-Good (Event.elapsed d) r good = record {
  known = All-imp _ _ r.grants (λ g (le, k). (omega arith, k)) good.known;
  spaced = good.spaced;
}
step-Good (Event.went_online on) r good = record { known = good.known; spaced = good.spaced }
step-Good (Event.interval s) r good = record { known = good.known; spaced = good.spaced }
step-Good (Event.asked lanes) r good =
    granted-Good r _ (take_among-Taken (waiting lanes) r.clock r.governor priority true) good
step-Good (Event.written lane) r good = record {
  known = All-imp _ _ r.grants (sent-Known r.clock r.governor lane) good.known;
  spaced = good.spaced;
}

run-Good : (es : List Event) (r : Run) → Good r → Good (run es r)
unfolding run
run-Good [] r good = good
run-Good (e ∷ es) r good = run-Good es (step e r) (step-Good e r good)

-- In every sequence of events of a session that starts offline (time passing, connection changes,
-- announcements of the interval, requests of any lanes, writes), each search that `take_next` lets
-- through comes 5 seconds or more after every earlier one, and one of the lane `Wanted` comes at
-- least the interval in force after every earlier one of that lane.
pub run-Spaced : (es : List Event) → Spaced (run es started).grants
run-Spaced es = (run-Good es started (record { known = tt; spaced = tt })).spaced
