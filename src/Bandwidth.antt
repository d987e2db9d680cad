-- ===== src/Bandwidth.antt =====
-- src-tauri/src/connection/bandwidth.rs: the limits in force. A minute is one of the day, a time a
-- number of milliseconds. Of a bucket, whose tokens are floating-point numbers, only its rate in KiB
-- and the time of its making are kept.
pub mod Schedule
pub mod InForce
use forever.Prelude.{
  ℕ, ◌+◌, ◌*◌, Bool, true, false, not, ◌&&◌, ◌||◌, Option, none, some, List, [], ◌∷◌, any, leb, ltb,
  ◌==◌, if◌then◌else◌,
}

pub record Limits : Type 0 where
  pub total_kib : ℕ
  pub download_kib : ℕ
  pub upload_kib : ℕ

abbrev pub unlimited : Limits
unlimited = record { total_kib = 0; download_kib = 0; upload_kib = 0 }

pub record BandwidthSettings : Type 0 where
  pub manual_paused : Bool
  pub normal : Limits
  pub alternate : Limits
  pub schedule_enabled : Bool
  pub start_minute : ℕ
  pub end_minute : ℕ
  pub pause_on_metered : Bool

abbrev pub default_settings : BandwidthSettings
default_settings = record {
  manual_paused = false;
  normal = unlimited;
  alternate = unlimited;
  schedule_enabled = false;
  start_minute = 23 * 60;
  end_minute = 7 * 60;
  pause_on_metered = false;
}

unfoldable pub is_too_fast : Limits → Bool
is_too_fast l =
    ltb 1_000_000 l.total_kib || (ltb 1_000_000 l.download_kib || ltb 1_000_000 l.upload_kib)

-- `validate`: which of the two complaints is made.
pub data Complaint : Type 0 where
  too_fast : Complaint
  not_distinct : Complaint

unfoldable pub validate : BandwidthSettings → Option Complaint
unfolding is_too_fast
validate s =
    if is_too_fast s.normal || is_too_fast s.alternate
    then some Complaint.too_fast
    else if leb 1440 s.start_minute
        || (leb 1440 s.end_minute || (s.schedule_enabled && s.start_minute == s.end_minute))
    then some Complaint.not_distinct
    else none

unfoldable pub alternate_at : BandwidthSettings → ℕ → Bool
alternate_at s minute =
    s.schedule_enabled
    && (if ltb s.start_minute s.end_minute
        then leb s.start_minute minute && ltb minute s.end_minute
        else leb s.start_minute minute || ltb minute s.end_minute)

pub data NetworkCost : Type 0 where
  unmetered : NetworkCost
  metered : NetworkCost
  unknown : NetworkCost

abbrev pub cost_eq : NetworkCost → NetworkCost → Bool
cost_eq NetworkCost.unmetered NetworkCost.unmetered = true
cost_eq NetworkCost.metered NetworkCost.metered = true
cost_eq NetworkCost.unknown NetworkCost.unknown = true
cost_eq a b = false

abbrev pub limits_eq : Limits → Limits → Bool
limits_eq a b =
    a.total_kib == b.total_kib && (a.download_kib == b.download_kib && a.upload_kib == b.upload_kib)

abbrev pub bool_eq : Bool → Bool → Bool
bool_eq true b = b
bool_eq false b = not b

pub record Snapshot : Type 0 where
  pub manual_paused : Bool
  pub revision : ℕ
  pub alternate_active : Bool
  pub limits : Limits
  pub network_cost : NetworkCost
  pub paused : Bool

pub record Bucket : Type 0 where
  pub kib : ℕ
  pub made : ℕ

pub record Buckets : Type 0 where
  pub total : Bucket
  pub download : Bucket
  pub upload : Bucket

pub record State : Type 0 where
  pub settings : BandwidthSettings
  pub minute : ℕ
  pub snapshot : Snapshot
  pub buckets : Buckets
  pub epoch : ℕ

unfoldable pub buckets_for : Limits → ℕ → Buckets
buckets_for l now = record {
  total = record { kib = l.total_kib; made = now };
  download = record { kib = l.download_kib; made = now };
  upload = record { kib = l.upload_kib; made = now };
}

-- What the settings say at a minute of the day.
unfoldable pub limits_at : BandwidthSettings → ℕ → Limits
unfolding alternate_at
limits_at s minute = if alternate_at s minute then s.alternate else s.normal

unfoldable pub paused_by : BandwidthSettings → NetworkCost → Bool
paused_by s cost =
    s.manual_paused || (s.pause_on_metered && not (cost_eq cost NetworkCost.unmetered))

-- `refresh`: whether the snapshot changed, and the new state.
unfoldable pub refresh : State → ℕ → Bool × State
unfolding limits_at paused_by buckets_for
refresh state now =
    let active = alternate_at state.settings state.minute in
    let limits = limits_at state.settings state.minute in
    let paused = paused_by state.settings state.snapshot.network_cost in
    let old = state.snapshot in
    let replaced = not (limits_eq old.limits limits) || not (bool_eq old.paused paused) in
    (
      not (bool_eq old.alternate_active active)
          || (not (limits_eq old.limits limits)
              || (not (bool_eq old.paused paused)
                  || not (bool_eq old.manual_paused state.settings.manual_paused))),
      record state {
        buckets = if replaced then buckets_for limits now else state.buckets;
        epoch = if replaced then state.epoch + 1 else state.epoch;
        snapshot = record old {
          alternate_active = active;
          limits = limits;
          paused = paused;
          manual_paused = state.settings.manual_paused;
        };
      },
    )

unfoldable pub new : BandwidthSettings → ℕ → ℕ → State
unfolding refresh
new settings minute now =
    (refresh
      (record {
        settings = settings;
        minute = minute;
        snapshot = record {
          manual_paused = false;
          revision = 0;
          alternate_active = false;
          limits = unlimited;
          network_cost = NetworkCost.unknown;
          paused = false;
        };
        buckets = buckets_for unlimited now;
        epoch = 0;
      })
      now).1

unfoldable pub revised : State → State
revised state = record state {
  snapshot = record state.snapshot { revision = state.snapshot.revision + 1 };
}

unfoldable pub configure : State → BandwidthSettings → ℕ → ℕ → State
unfolding refresh revised
configure state settings minute now =
    revised (refresh (record state { settings = settings; minute = minute }) now).1

unfoldable pub environment : State → ℕ → NetworkCost → ℕ → Bool × State
unfolding refresh revised
environment state minute cost now =
    let seen = record state {
      minute = minute;
      snapshot = record state.snapshot { network_cost = cost };
    } in
    let answer = refresh seen now in
    let changed = answer.0 || not (cost_eq state.snapshot.network_cost cost) in
    (changed, if changed then revised answer.1 else answer.1)

-- A permit's unused part goes back only to the buckets that it was taken from.
unfoldable pub is_current : State → ℕ → Bool
is_current state epoch = state.epoch == epoch
