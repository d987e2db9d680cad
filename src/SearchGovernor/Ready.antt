-- ===== src/SearchGovernor/Ready.antt =====
-- What search_governor.rs asks of a lane that may send.
use forever.Prelude.{
  ℕ, ◌+◌, max, subst, ◌≤◌, ◌≡◌, refl, if◌then◌else◌, not, Bool, true, false, Option, none, some,
  arith, Bool-cases, inl, inr, ltb, ltb→lt, leb→le,
}
use forever.SearchGovernor.{
  Budget, SearchLane, is_wanted, ready, next_slot, wanted_slot, reached, from_secs, ordinary,
  search_spacing,
}

-- The instant recorded is at `t` or later.
abbrev pub Covers : Option ℕ → ℕ → Type 0
Covers o t = (s : ℕ) × ((o ≡ some s) × (t ≤ s))

-- The lane may send: online, the spacing over, and for `Wanted` an interval over as well.
abbrev pub MaySend : Budget → SearchLane → ℕ → Type 0
MaySend b lane now =
    (b.online ≡ true)
    × (((t : ℕ) → Covers b.last_send t → t + search_spacing ≤ now)
        × (is_wanted lane ≡ true
            → (seconds : ℕ) × ((b.wishlist_seconds ≡ some seconds)
                × ((1 ≤ seconds)
                    × ((t : ℕ) → Covers b.last_wishlist t → t + from_secs seconds ≤ now)))))

max_le : (a b : ℕ) → max a b ≤ b → a ≤ b
max_le a b h = ground arith

ordinary-spaced :
    (o : Option ℕ) (now : ℕ)
    → ordinary o now ≤ now
    → (t : ℕ) → Covers o t
    → t + search_spacing ≤ now
ordinary-spaced o now h t (s, (e, le)) =
    let h' : s + search_spacing ≤ now = subst (λ o. ordinary o now ≤ now) e h in omega arith

-- What stands behind the test that the client is online.
gate :
    (c : Bool) (slot : Option ℕ) (now : ℕ)
    → reached (if not c then none else slot) now ≡ true
    → (c ≡ true) × (reached slot now ≡ true)
unfolding reached
gate true slot now h = (refl, h)
gate false slot now h = cc

wanted_slot_lem :
    (seconds anchor : Option ℕ) (earliest now : ℕ)
    → reached (wanted_slot seconds anchor earliest now) now ≡ true
    → (earliest ≤ now)
      × ((s : ℕ) × ((seconds ≡ some s)
            × ((1 ≤ s) × ((a : ℕ) → anchor ≡ some a → a + from_secs s ≤ now))))
unfolding wanted_slot reached
wanted_slot_lem none anchor earliest now h = cc
wanted_slot_lem (some s) none earliest now h = cc
wanted_slot_lem (some s) (some a) earliest now h = elim (Bool-cases (ltb 0 s)) [
  | inr zero ↦ absurd (ground arith)
  | inl positive ↦
      let late : max (max earliest (a + from_secs s)) now ≤ now = ground arith in
      (
        ground arith,
        (s, (refl, (ltb→lt 0 s positive, λ a' e. let e' : a ≡ a' = cc in ground arith))),
      )
]

-- A lane that waits for the spacing alone.
ordinary_lane :
    (b : Budget) (now : ℕ)
    → reached (if not b.online then none else some (max (ordinary b.last_send now) now)) now ≡ true
    → (b.online ≡ true) × ((t : ℕ) → Covers b.last_send t → t + search_spacing ≤ now)
unfolding reached
ordinary_lane b now h =
    let (on, slot) = gate b.online _ now h in
    (on, ordinary-spaced b.last_send now (max_le _ now (leb→le _ _ slot)))

pub ready-MaySend :
    (b : Budget) (lane : SearchLane) (now : ℕ) → ready b lane now ≡ true → MaySend b lane now
unfolding ready next_slot
ready-MaySend b SearchLane.user now h =
    let (on, spaced) = ordinary_lane b now h in (on, (spaced, λ e. absurd cc))
ready-MaySend b SearchLane.relay now h =
    let (on, spaced) = ordinary_lane b now h in (on, (spaced, λ e. absurd cc))
ready-MaySend b SearchLane.radar now h =
    let (on, spaced) = ordinary_lane b now h in (on, (spaced, λ e. absurd cc))
ready-MaySend b SearchLane.wanted now h =
    let (on, slot) = gate b.online _ now h in
    let (early, (s, (e, (positive, apart)))) = wanted_slot_lem b.wishlist_seconds _ _ now slot in
    (
      on,
      (
        ordinary-spaced b.last_send now early,
        λ _. (
          s,
          (
            e,
            (
              positive,
              λ t (w, (ew, le)).
                  let done : w + from_secs s ≤ now = apart w (rw ew refl) in
                  omega (arith, done, le),
            ),
          ),
        ),
      ),
    )
