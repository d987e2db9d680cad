-- ===== src/Text.antt =====
-- Rust strings as their UTF-8 bytes: the decoders of std that
-- src-tauri/src/connection/protocol.rs calls (`String::from_utf8`, `String::from_utf8_lossy`) as an
-- automaton over the bytes, and the string methods that it uses.
pub mod Utf8
pub mod Trim
use forever.Prelude.{
  ℕ, ◌+◌, ◌-◌, ◌≡◌, Bool, true, false, ◌&&◌, ◌||◌, Option, none, some, [], ◌∷◌, map, leb, ltb, ◌==◌,
  if◌then◌else◌, is_empty,
}
use forever.Bytes.{Bytes}

abbrev is_upper : ℕ → Bool
is_upper b = leb b'A' b && leb b b'Z'

abbrev is_lower : ℕ → Bool
is_lower b = leb b'a' b && leb b b'z'

-- `to_ascii_lowercase` and `to_ascii_uppercase`
unfoldable pub to_ascii_lowercase : Bytes → Bytes
to_ascii_lowercase = map (λ b. if is_upper b then b + 32 else b)

unfoldable pub to_ascii_uppercase : Bytes → Bytes
to_ascii_uppercase = map (λ b. if is_lower b then b - 32 else b)

-- `u8::is_ascii_alphabetic`, `u8::is_ascii_graphic`, `u8::is_ascii`
abbrev pub is_ascii_alphabetic : ℕ → Bool
is_ascii_alphabetic b = is_upper b || is_lower b

abbrev pub is_ascii_graphic : ℕ → Bool
is_ascii_graphic b = leb b'!' b && leb b b'~'

abbrev pub is_ascii : ℕ → Bool
is_ascii b = ltb b 128

-- `.replace('/', "\\")`
unfoldable pub replace_slashes : Bytes → Bytes
replace_slashes = map (λ b. if b == b'/' then 92 else b)

-- `.rsplit_once('.').map(|(_, extension)| …)`: what stands behind the last dot.
unfoldable pub after_last_dot : Bytes → Option Bytes
after_last_dot [] = none
after_last_dot (b ∷ bs) = elim (after_last_dot bs) [
  | some e ↦ some e
  | none ↦ if b == b'.' then some bs else none
]

-- `.starts_with(' ')`, `.ends_with(' ')`, `.contains("  ")`
unfoldable pub starts_with_space : Bytes → Bool
starts_with_space [] = false
starts_with_space (b ∷ bs) = b == b' '

unfoldable pub ends_with_space : Bytes → Bool
ends_with_space [] = false
ends_with_space (b ∷ []) = b == b' '
ends_with_space (b ∷ c ∷ bs) = ends_with_space (c ∷ bs)

unfoldable pub contains_two_spaces : Bytes → Bool
unfolding starts_with_space
contains_two_spaces [] = false
contains_two_spaces (b ∷ bs) = (b == b' ' && starts_with_space bs) || contains_two_spaces bs
