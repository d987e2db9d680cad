-- ===== src/Text/Utf8.antt =====
-- `String::from_utf8` and `String::from_utf8_lossy` of std, byte by byte. A maximal prefix of a
-- character that the next byte breaks off becomes one U+FFFD, as std documents.
use forever.Prelude.{
  ℕ, ◌-◌, ◌≡◌, refl, sym, ap, ◌∙◌, ◌⊎◌, Bool, true, false, ◌&&◌, Option, none, some, [], ◌∷◌, ◌++◌,
  append_assoc, append-nil, leb, ltb, ◌==◌, if◌then◌else◌, Bool-cases, and_parts, inl, inr, arith,
}
use forever.Bytes.{Bytes}

-- What a byte that begins a character asks for: nothing, or `need` more bytes of which the first
-- lies between `lo` and `hi`.
pub data Lead : Type 0 where
  ascii : Lead
  multi : ℕ → ℕ → ℕ → Lead
  bad : Lead

lead : ℕ → Lead
lead b =
    if ltb b 0x80
    then ascii
    else if ltb b 0xC2
    then bad
    else if ltb b 0xE0
    then multi 1 0x80 0xBF
    else if b == 0xE0
    then multi 2 0xA0 0xBF
    else if b == 0xED
    then multi 2 0x80 0x9F
    else if ltb b 0xF0
    then multi 2 0x80 0xBF
    else if b == 0xF0
    then multi 3 0x90 0xBF
    else if ltb b 0xF4
    then multi 3 0x80 0xBF
    else if b == 0xF4
    then multi 3 0x80 0x8F
    else bad

-- Between two characters, or inside one: the bytes that were read, how many are wanted, and the
-- range of the next.
pub data State : Type 0 where
  idle : State
  inside : Bytes → ℕ → ℕ → ℕ → State

-- U+FFFD
abbrev replacement : Bytes
replacement = 0xEF ∷ 0xBF ∷ 0xBD ∷ []

open_char : ℕ → Bytes × State
unfolding lead
open_char b = elim (lead b) [
  | ascii ↦ (b ∷ [], idle)
  | multi n lo hi ↦ ([], inside (b ∷ []) n lo hi)
  | bad ↦ (replacement, idle)
]

in_range : ℕ → ℕ → ℕ → Bool
in_range lo hi b = leb lo b && leb b hi

next_state : Bytes → ℕ → Bytes × State
next_state held n = if ltb 1 n then ([], inside held (n - 1) 0x80 0xBF) else (held, idle)

step : State → ℕ → Bytes × State
unfolding open_char in_range next_state
step idle b = open_char b
step (inside held n lo hi) b =
    if in_range lo hi b
    then next_state (held ++ b ∷ []) n
    else (replacement ++ (open_char b).0, (open_char b).1)

lossy : State → Bytes → Bytes
unfolding step
lossy idle [] = []
lossy (inside held n lo hi) [] = replacement
lossy s (b ∷ bs) = (step s b).0 ++ lossy (step s b).1 bs

unfoldable pub from_utf8_lossy : Bytes → Bytes
unfolding lossy
from_utf8_lossy bs = lossy idle bs

accepts : State → ℕ → Bool
unfolding lead in_range
accepts idle b = elim (lead b) [ bad ↦ false | _ ↦ true ]
accepts (inside held n lo hi) b = in_range lo hi b

valid : State → Bytes → Bool
unfolding step accepts
valid idle [] = true
valid (inside held n lo hi) [] = false
valid s (b ∷ bs) = accepts s b && valid (step s b).1 bs

unfoldable pub is_utf8 : Bytes → Bool
unfolding valid
is_utf8 bs = valid idle bs

-- The invariant of a Rust `String`.
abbrev pub IsText : Bytes → Type 0
IsText bs = is_utf8 bs ≡ true

unfoldable pub from_utf8 : Bytes → Option Bytes
unfolding is_utf8
from_utf8 bs = if is_utf8 bs then some bs else none

abbrev held_of : State → Bytes
held_of idle = []
held_of (inside held n lo hi) = held

step_keeps :
    (s : State) (b : ℕ)
    → accepts s b ≡ true
    → (step s b).0 ++ held_of (step s b).1 ≡ held_of s ++ b ∷ []
unfolding step accepts
step_keeps idle b h = ground arith
step_keeps (inside held n lo hi) b h = rw h (split (Bool-cases (ltb 1 n)))
  where
    split :
        (ltb 1 n ≡ true) ⊎ (ltb 1 n ≡ false)
        → (next_state (held ++ b ∷ []) n).0 ++ held_of (next_state (held ++ b ∷ []) n).1
          ≡ held ++ b ∷ []
    split (inl e) = rw e
    split (inr e) = rw e (append-nil _)

lossy_of_valid : (s : State) (bs : Bytes) → valid s bs ≡ true → lossy s bs ≡ held_of s ++ bs
unfolding lossy valid
lossy_of_valid idle [] h = refl
lossy_of_valid (inside held n lo hi) [] h = cc
lossy_of_valid s (b ∷ bs) h =
    let (taken, later) = and_parts (accepts s b) (valid (step s b).1 bs) h in
    rw (lossy_of_valid (step s b).1 bs later) (
      sym (append_assoc (step s b).0 (held_of (step s b).1) bs)
      ∙ ap (λ l. l ++ bs) (step_keeps s b taken)
      ∙ append_assoc (held_of s) (b ∷ []) bs)

-- Bytes that are UTF-8 come back as they are.
pub from_utf8_lossy-id : (bs : Bytes) → IsText bs → from_utf8_lossy bs ≡ bs
unfolding from_utf8_lossy is_utf8
from_utf8_lossy-id bs h = lossy_of_valid idle bs h
