-- ===== src/Examples/Schedule.antt =====
-- A night schedule, and a network whose cost changes.
use forever.Prelude.{◌≡◌, refl, ◌&&◌, true, ltb, List, [], ◌∷◌, arith}
use forever.Bandwidth.{
  BandwidthSettings, Limits, NetworkCost, default_settings, validate, is_too_fast, alternate_at,
  new,
}
use forever.Bandwidth.Schedule.{minutes_after, alternate_at-minutes_after}
use forever.Bandwidth.InForce.{InForce, Event, told, told_first, after, after-InForce}

abbrev slow : Limits
slow = record { total_kib = 100; download_kib = 0; upload_kib = 20 }

abbrev nightly : BandwidthSettings
nightly = record default_settings {
  schedule_enabled = true;
  alternate = slow;
  pause_on_metered = true;
}

alternate_at-minutes_after_example : alternate_at nightly 90 ≡ (
    nightly.schedule_enabled
    && ltb
        (minutes_after nightly.start_minute 90)
        (minutes_after nightly.start_minute nightly.end_minute))
unfolding validate is_too_fast
alternate_at-minutes_after_example = alternate_at-minutes_after nightly 90 refl (omega arith)

abbrev events : List Event
events = Event.observes 90 NetworkCost.unmetered 5 ∷ Event.configures default_settings 91 6 ∷ []

after-InForce_example :
    InForce (told events (told_first nightly 60)) (after events (new nightly 60 1))
after-InForce_example = after-InForce events nightly 60 1
