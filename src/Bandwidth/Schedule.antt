-- ===== src/Bandwidth/Schedule.antt =====
-- The schedule of bandwidth.rs, which may go over midnight.
use forever.Prelude.{
  ℕ, ◌+◌, ◌-◌, ◌%◌, ◌≤◌, ◌<◌, ◌≡◌, ◌≢◌, refl, ap, sym, ◌∙◌, Bool, true, false, ◌&&◌, ◌||◌, none,
  leb, ltb, ◌==◌, if◌then◌else◌, arith, some, ◌⊎◌, inl, inr, Bool-cases,
}
use forever.Bandwidth.{BandwidthSettings, validate, is_too_fast, alternate_at, Complaint}

-- How many minutes after another one of the day comes.
abbrev pub minutes_after : ℕ → ℕ → ℕ
minutes_after start minute = (minute + 1440 - start) % 1440

after_cases :
    (start minute : ℕ)
    → start < 1440
    → minute < 1440
    → ((start ≤ minute) × (minutes_after start minute ≡ minute - start))
      ⊎ ((minute < start) × (minutes_after start minute ≡ minute + 1440 - start))
after_cases start minute s m = elim (Bool-cases (leb start minute)) [
  | inl e ↦ let l : start ≤ minute = ground (arith, e) in inl (l, omega arith)
  | inr e ↦ let l : minute < start = ground (arith, e) in inr (l, omega arith)
]

around :
    (start end minute : ℕ)
    → start < 1440
    → end < 1440
    → minute < 1440
    → start ≢ end
    → (if ltb start end
        then leb start minute && ltb minute end
        else leb start minute || ltb minute end)
      ≡ ltb (minutes_after start minute) (minutes_after start end)
around start end minute s e m apart = go (after_cases start minute s m) (after_cases start end s e)
  where
    go :
        ((start ≤ minute) × (minutes_after start minute ≡ minute - start))
          ⊎ ((minute < start) × (minutes_after start minute ≡ minute + 1440 - start))
        → ((start ≤ end) × (minutes_after start end ≡ end - start))
          ⊎ ((end < start) × (minutes_after start end ≡ end + 1440 - start))
        → (if ltb start end
            then leb start minute && ltb minute end
            else leb start minute || ltb minute end)
          ≡ ltb (minutes_after start minute) (minutes_after start end)
    go (inl (a, b)) (inl (c, d)) = rw (b, d) (ground arith)
    go (inl (a, b)) (inr (c, d)) = rw (b, d) (ground arith)
    go (inr (a, b)) (inl (c, d)) = rw (b, d) (ground arith)
    go (inr (a, b)) (inr (c, d)) = rw (b, d) (ground arith)

-- What settings that were validated keep to.
validated :
    (s : BandwidthSettings)
    → validate s ≡ none
    → s.schedule_enabled ≡ true
    → (s.start_minute < 1440) × (s.end_minute < 1440) × (s.start_minute ≢ s.end_minute)
unfolding validate
validated s h on =
    go (is_too_fast s.normal || is_too_fast s.alternate) (leb 1440 s.start_minute) refl
      (leb 1440 s.end_minute) refl (s.schedule_enabled && s.start_minute == s.end_minute) refl h
  where
    unequal :
        (s.schedule_enabled && s.start_minute == s.end_minute) ≡ false
        → s.start_minute ≡ s.end_minute
        → ⊥
    unequal f e = ground (arith, on)

    go :
        (a b : Bool)
        → leb 1440 s.start_minute ≡ b
        → (c : Bool) → leb 1440 s.end_minute ≡ c
        → (d : Bool) → (s.schedule_enabled && s.start_minute == s.end_minute) ≡ d
        → (if a
            then some Complaint.too_fast
            else if b || (c || d)
            then some Complaint.not_distinct
            else none)
          ≡ none
        → (s.start_minute < 1440) × (s.end_minute < 1440) × (s.start_minute ≢ s.end_minute)
    go true b e c f d g k = absurd cc
    go false true e c f d g k = absurd cc
    go false false e true f d g k = absurd cc
    go false false e false f true g k = absurd cc
    go false false e false f false g k = (ground (arith, e), ground (arith, f), unequal g)

-- For settings that `validate` accepts and a minute of the day, `alternate_at` holds exactly if
-- the schedule is enabled and the minute comes fewer minutes after the start than the end does,
-- counted around the day, whether or not the schedule goes over midnight.
pub alternate_at-minutes_after :
    (s : BandwidthSettings) (minute : ℕ)
    → validate s ≡ none
    → minute < 1440
    → alternate_at s minute ≡ (
        s.schedule_enabled
        && ltb (minutes_after s.start_minute minute) (minutes_after s.start_minute s.end_minute))
unfolding alternate_at
alternate_at-minutes_after s minute h m = elim (Bool-cases s.schedule_enabled) [
  | inl on ↦
      let v = validated s h on in
      ap (λ b. s.schedule_enabled && b) (around s.start_minute s.end_minute minute v.0 v.1 m v.2)
  | inr off ↦
      ap
        (λ b.
          b
          && (if ltb s.start_minute s.end_minute
              then leb s.start_minute minute && ltb minute s.end_minute
              else leb s.start_minute minute || ltb minute s.end_minute))
        off
      ∙ sym (
          ap
            (λ b.
              b
              && ltb (minutes_after s.start_minute minute)
                  (minutes_after s.start_minute s.end_minute))
            off)
]
