-- ===== src/Text/Trim.antt =====
-- `str::trim` of std: it takes the characters with the Unicode property White_Space off both ends.
-- On UTF-8 bytes such a character is one of the sequences below.
use forever.Prelude.{
  ℕ, zero, suc, Bool, ◌&&◌, ◌||◌, [], ◌∷◌, leb, ◌==◌, if◌then◌else◌, length, drop,
}
use mathlib.Core.List.{reverse}
use forever.Bytes.{Bytes}

-- U+0009 to U+000D and U+0020
abbrev white_1 : ℕ → Bool
white_1 a = (leb 9 a && leb a 13) || a == 32

-- U+0085 and U+00A0
abbrev white_2 : ℕ → ℕ → Bool
white_2 a b = a == 0xC2 && (b == 0x85 || b == 0xA0)

-- U+1680, U+2000 to U+200A, U+2028, U+2029, U+202F, U+205F and U+3000
abbrev white_3 : ℕ → ℕ → ℕ → Bool
white_3 a b c =
    (a == 0xE1 && (b == 0x9A && c == 0x80))
    || ((a == 0xE2
          && ((b == 0x80 && ((leb 0x80 c && leb c 0x8A) || (c == 0xA8 || (c == 0xA9 || c == 0xAF))))
              || (b == 0x81 && c == 0x9F)))
        || (a == 0xE3 && (b == 0x80 && c == 0x80)))

-- How many bytes the white character at the front has; 0 if there is none.
white_prefix : Bytes → ℕ
white_prefix [] = 0
white_prefix (a ∷ []) = if white_1 a then 1 else 0
white_prefix (a ∷ b ∷ []) = if white_1 a then 1 else if white_2 a b then 2 else 0
white_prefix (a ∷ b ∷ c ∷ _) =
    if white_1 a then 1 else if white_2 a b then 2 else if white_3 a b c then 3 else 0

-- The same at the end of a reversed text.
white_suffix : Bytes → ℕ
white_suffix [] = 0
white_suffix (a ∷ []) = if white_1 a then 1 else 0
white_suffix (b ∷ a ∷ []) = if white_1 b then 1 else if white_2 a b then 2 else 0
white_suffix (c ∷ b ∷ a ∷ _) =
    if white_1 c then 1 else if white_2 b c then 2 else if white_3 a b c then 3 else 0

-- Drops white characters until none is at the front; each round takes a byte at least.
strip : (Bytes → ℕ) → ℕ → Bytes → Bytes
strip white zero s = s
strip white (suc fuel) s =
    let rest = strip white fuel (drop (white s) s) in if white s == 0 then s else rest

trim_with : (Bytes → ℕ) → Bytes → Bytes
unfolding strip
trim_with white s = strip white (length s) s

unfoldable pub trim : Bytes → Bytes
unfolding trim_with white_prefix white_suffix
trim s = reverse (trim_with white_suffix (reverse (trim_with white_prefix s)))
