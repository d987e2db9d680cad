-- ===== src/Bandwidth/InForce.antt =====
-- The limits that bandwidth.rs has in force are those of its settings.
use forever.Prelude.{
  ℕ, ◌≡◌, refl, sym, subst, ◌∙◌, Bool, true, false, not, ◌&&◌, ◌||◌, List, [], ◌∷◌, ◌==◌, ==→eq,
  if◌then◌else◌, and_parts, or_false,
}
use forever.Bandwidth.{
  Limits, BandwidthSettings, alternate_at, NetworkCost, cost_eq, limits_eq, bool_eq, Buckets, State,
  buckets_for, limits_at, paused_by, refresh, new, revised, configure, environment, unlimited,
}

-- The rates of the buckets are the limits.
abbrev pub Rated : Buckets → Limits → Type 0
Rated b l =
    (b.total.kib ≡ l.total_kib) × (b.download.kib ≡ l.download_kib) × (b.upload.kib ≡ l.upload_kib)

-- What the program was told, whatever it made of it: the settings and the minute that came last, and
-- the network that was seen last.
pub record Told : Type 0 where
  pub settings : BandwidthSettings
  pub minute : ℕ
  pub cost : NetworkCost

pub data Event : Type 0 where
  configures : BandwidthSettings → ℕ → ℕ → Event
  observes : ℕ → NetworkCost → ℕ → Event

abbrev pub told : List Event → Told → Told
told [] said = said
told (Event.configures settings minute now ∷ es) said =
    told es (record said { settings = settings; minute = minute })
told (Event.observes minute cost now ∷ es) said =
    told es (record said { minute = minute; cost = cost })

-- The state follows what it was told.
pub record InForce (said : Told) (state : State) : Type 0 where
  pub settings : state.settings ≡ said.settings
  pub minute : state.minute ≡ said.minute
  pub cost : state.snapshot.network_cost ≡ said.cost
  pub active : state.snapshot.alternate_active ≡ alternate_at said.settings said.minute
  pub limits : state.snapshot.limits ≡ limits_at said.settings said.minute
  pub paused : state.snapshot.paused ≡ paused_by said.settings said.cost
  pub manual : state.snapshot.manual_paused ≡ said.settings.manual_paused
  pub rates : Rated state.buckets (limits_at said.settings said.minute)

told_in : State → Told
told_in state = record {
  settings = state.settings;
  minute = state.minute;
  cost = state.snapshot.network_cost;
}

-- The buckets have the rates of the limits that the snapshot shows.
rated :
    (said : Told) (state : State) → InForce said state → Rated state.buckets state.snapshot.limits
rated said state h = subst (Rated state.buckets) (sym h.limits) h.rates

was_true : (b : Bool) → not b ≡ false → b ≡ true
was_true true e = refl
was_true false e = absurd cc

limits_eq-Rated : (a l : Limits) (b : Buckets) → limits_eq a l ≡ true → Rated b a → Rated b l
limits_eq-Rated a l b e (t, d, u) =
    let p =
      and_parts (a.total_kib == l.total_kib)
        (a.download_kib == l.download_kib && a.upload_kib == l.upload_kib) e in
    let q = and_parts (a.download_kib == l.download_kib) (a.upload_kib == l.upload_kib) p.1 in
    (
      t ∙ ==→eq a.total_kib l.total_kib p.0,
      d ∙ ==→eq a.download_kib l.download_kib q.0,
      u ∙ ==→eq a.upload_kib l.upload_kib q.1,
    )

-- `refresh` puts in force what the state was told.
refresh-InForce :
    (state : State) (now : ℕ)
    → Rated state.buckets state.snapshot.limits
    → InForce (told_in state) (refresh state now).1
unfolding refresh buckets_for told_in
refresh-InForce state now h = record {
  settings = refl;
  minute = refl;
  cost = refl;
  active = refl;
  limits = refl;
  paused = refl;
  manual = refl;
  rates = rated_by replaced refl;
}
  where
    limits : Limits
    limits = limits_at state.settings state.minute

    replaced : Bool
    replaced =
        not (limits_eq state.snapshot.limits limits)
        || not
            (bool_eq state.snapshot.paused (paused_by state.settings state.snapshot.network_cost))

    rated_by :
        (b : Bool)
        → replaced ≡ b
        → Rated (if b then buckets_for limits now else state.buckets) limits
    rated_by true e = (refl, refl, refl)
    rated_by false e =
        let same =
          (or_false (not (limits_eq state.snapshot.limits limits))
            (not (
              bool_eq state.snapshot.paused (paused_by state.settings state.snapshot.network_cost)))
            e).0 in
        limits_eq-Rated state.snapshot.limits limits state.buckets
          (was_true (limits_eq state.snapshot.limits limits) same) h

revised-InForce : (said : Told) (state : State) → InForce said state → InForce said (revised state)
unfolding revised
revised-InForce said state h = record {
  settings = h.settings;
  minute = h.minute;
  cost = h.cost;
  active = h.active;
  limits = h.limits;
  paused = h.paused;
  manual = h.manual;
  rates = h.rates;
}

-- At the start nothing is known of the network.
abbrev pub told_first : BandwidthSettings → ℕ → Told
told_first settings minute = record {
  settings = settings;
  minute = minute;
  cost = NetworkCost.unknown;
}

new-InForce :
    (settings : BandwidthSettings) (minute now : ℕ)
    → InForce (told_first settings minute) (new settings minute now)
unfolding new buckets_for told_in
new-InForce settings minute now =
    refresh-InForce
      (record {
        settings = settings;
        minute = minute;
        snapshot = record {
          manual_paused = false;
          revision = 0;
          alternate_active = false;
          limits = unlimited;
          network_cost = NetworkCost.unknown;
          paused = false;
        };
        buckets = buckets_for unlimited now;
        epoch = 0;
      })
      now (refl, refl, refl)

configure-InForce :
    (said : Told) (state : State) (settings : BandwidthSettings) (minute now : ℕ)
    → InForce said state
    → InForce
        (record said { settings = settings; minute = minute })
        (configure state settings minute now)
unfolding configure told_in
configure-InForce said state settings minute now h =
    revised-InForce (record said { settings = settings; minute = minute })
      (refresh (record state { settings = settings; minute = minute }) now).1
      (subst
        (λ c.
          InForce (record { settings = settings; minute = minute; cost = c })
            (refresh (record state { settings = settings; minute = minute }) now).1)
        h.cost
        (refresh-InForce (record state { settings = settings; minute = minute }) now
          (rated said state h)))

environment-InForce :
    (said : Told) (state : State) (minute : ℕ) (cost : NetworkCost) (now : ℕ)
    → InForce said state
    → InForce (record said { minute = minute; cost = cost }) (environment state minute cost now).1
unfolding environment told_in
environment-InForce said state minute cost now h =
    go ((refresh seen now).0 || not (cost_eq state.snapshot.network_cost cost))
  where
    seen : State
    seen = record state {
      minute = minute;
      snapshot = record state.snapshot { network_cost = cost };
    }

    said' : Told
    said' = record said { minute = minute; cost = cost }

    fits : InForce said' (refresh seen now).1
    fits =
        subst
          (λ s.
            InForce (record { settings = s; minute = minute; cost = cost }) (refresh seen now).1)
          h.settings (refresh-InForce seen now (rated said state h))

    go :
        (b : Bool)
        → InForce said' (if b then revised (refresh seen now).1 else (refresh seen now).1)
    go true = revised-InForce said' (refresh seen now).1 fits
    go false = fits

abbrev pub after : List Event → State → State
after [] state = state
after (Event.configures settings minute now ∷ es) state =
    after es (configure state settings minute now)
after (Event.observes minute cost now ∷ es) state = after es (environment state minute cost now).1

after-kept :
    (es : List Event) (said : Told) (state : State)
    → InForce said state
    → InForce (told es said) (after es state)
after-kept [] said state h = h
after-kept (Event.configures settings minute now ∷ es) said state h =
    after-kept es (record said { settings = settings; minute = minute })
      (configure state settings minute now) (configure-InForce said state settings minute now h)
after-kept (Event.observes minute cost now ∷ es) said state h =
    after-kept es (record said { minute = minute; cost = cost })
      (environment state minute cost now).1 (environment-InForce said state minute cost now h)

-- From `new` on through every sequence of changed settings and observations of the minute and the
-- network, the state has the settings and the minute that came last and the network that was seen
-- last (unknown at first). The snapshot shows the limits that those settings give at that minute
-- and whether they are the alternate ones, and pauses exactly if the settings ask for it, or ask
-- to pause on a metered network and that network is not known to be unmetered. The buckets have
-- the rates of these limits.
pub after-InForce :
    (events : List Event) (settings : BandwidthSettings) (minute now : ℕ)
    → InForce (told events (told_first settings minute)) (after events (new settings minute now))
after-InForce events settings minute now =
    after-kept events (told_first settings minute) (new settings minute now)
      (new-InForce settings minute now)
