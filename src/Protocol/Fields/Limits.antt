-- ===== src/Protocol/Fields/Limits.antt =====
-- What the checked fields of protocol.rs let through.
use forever.Prelude.{
  ℕ, ◌≤◌, ◌<◌, ◌≡◌, refl, sym, ap, ◌∙◌, ◌++◌, ◌==◌, ◌&&◌, ◌||◌, all, is_empty, and_parts, leb→le,
  Bool, true, false, not, String, List, length, ltb_false→le, All, arith, [], ◌∷◌,
}
use forever.Bytes.{Bytes}
use forever.Text.{is_ascii_graphic, starts_with_space, ends_with_space, contains_two_spaces}
use forever.Protocol.Codes.{
  max_room_name_bytes, max_network_username_bytes, max_user_interests, max_user_interest_bytes,
}
use forever.Protocol.Reader.Ensures.{
  Ensures, Ensures-pure, Ensures-bind, Ensures-reject, Ensures-read_u32, Ensures-read_string_lossy,
  Ensures-repeat_le, Anything,
}
use forever.Protocol.Fields.{
  empty_or_over, read_network_username, is_room_name, read_room_name, bounded_count, read_country,
  read_interest, read_interests,
}

-- A text that is neither empty nor longer than `maximum` bytes.
pub record IsBounded (maximum : ℕ) (text : Bytes) : Type 0 where
  pub not_empty : 0 < length text
  pub at_most : length text ≤ maximum

pub empty_or_over-IsBounded :
    (maximum : ℕ) (text : Bytes) → empty_or_over maximum text ≡ false → IsBounded maximum text
empty_or_over-IsBounded maximum [] h = cc
empty_or_over-IsBounded maximum (b ∷ bs) h = record {
  not_empty = omega arith;
  at_most = ltb_false→le (length (b ∷ bs)) maximum h;
}

abbrev pub IsUsername : Bytes → Type 0
IsUsername = IsBounded max_network_username_bytes

pub Ensures-read_network_username : Ensures IsUsername read_network_username
unfolding read_network_username
Ensures-read_network_username = Ensures-bind _ Ensures-read_string_lossy (λ username _.
    Ensures-bind _ (Ensures-reject _ _) (λ _ h.
      Ensures-pure username (empty_or_over-IsBounded max_network_username_bytes username h)))

-- A name of a room: 1 to 24 printable ASCII characters, with no space at either end and no two in
-- a row.
pub record IsRoomName (room : Bytes) : Type 0 where
  pub bounded : IsBounded max_room_name_bytes room
  pub printable : All (λ b. (b' ' ≤ b) × (b ≤ b'~')) room
  pub no_space_first : (rest : Bytes) → ¬ (room ≡ b' ' ∷ rest)
  pub no_space_last : (front : Bytes) → ¬ (room ≡ front ++ b' ' ∷ [])
  pub no_two_spaces : (front rest : Bytes) → ¬ (room ≡ front ++ b' ' ∷ b' ' ∷ rest)

was_false : (b : Bool) → not b ≡ true → b ≡ false
was_false false h = refl
was_false true h = absurd cc

all_printable :
    (room : Bytes)
    → all (λ byte. is_ascii_graphic byte || byte == b' ') room ≡ true
    → All (λ b. (b' ' ≤ b) × (b ≤ b'~')) room
all_printable [] h = tt
all_printable (b ∷ bs) h =
    let (first, rest) =
      and_parts (is_ascii_graphic b || b == b' ')
        (all (λ byte. is_ascii_graphic byte || byte == b' ') bs) h in
    (ground (arith, first), all_printable bs rest)

ends_with_space-append : (front : Bytes) → ends_with_space (front ++ b' ' ∷ []) ≡ true
unfolding ends_with_space
ends_with_space-append [] = refl
ends_with_space-append (b ∷ []) = refl
ends_with_space-append (b ∷ c ∷ front) = ends_with_space-append (c ∷ front)

contains_two_spaces-append :
    (front rest : Bytes) → contains_two_spaces (front ++ b' ' ∷ b' ' ∷ rest) ≡ true
unfolding contains_two_spaces starts_with_space
contains_two_spaces-append [] rest = refl
contains_two_spaces-append (b ∷ front) rest =
    or_true (b == b' ' && starts_with_space (front ++ b' ' ∷ b' ' ∷ rest))
      (contains_two_spaces-append front rest)
  where
    or_true : (a : Bool) {c : Bool} → c ≡ true → (a || c) ≡ true
    or_true true h = refl
    or_true false h = h

is_room_name-IsRoomName : (room : Bytes) → is_room_name room ≡ true → IsRoomName room
unfolding is_room_name starts_with_space
is_room_name-IsRoomName room h =
    let p0 = and_parts _ _ h in
    let p1 = and_parts _ _ p0.1 in
    let p2 = and_parts _ _ p1.1 in
    let p3 = and_parts _ _ p2.1 in
    let p4 = and_parts _ _ p3.1 in
    let p5 = and_parts _ _ p4.1 in
    record {
      bounded = record {
        not_empty = some_byte room p0.0;
        at_most = leb→le (length room) max_room_name_bytes p1.0;
      };
      printable = all_printable room p5.1;
      no_space_first =
          λ rest e. absurd (false_true (sym (was_false _ p3.0) ∙ ap starts_with_space e));
      no_space_last = λ front e. absurd (
          false_true
            (sym (was_false _ p4.0) ∙ ap ends_with_space e ∙ ends_with_space-append front));
      no_two_spaces = λ front rest e. absurd (
          false_true (
            sym (was_false _ p5.0)
            ∙ ap contains_two_spaces e
            ∙ contains_two_spaces-append front rest));
    }
  where
    some_byte : (bs : Bytes) → not (is_empty bs) ≡ true → 0 < length bs
    some_byte [] e = absurd cc
    some_byte (b ∷ bs) e = omega arith

    false_true : false ≡ true → ⊥
    false_true e = cc

accepted_name : (b : Bool) → not b ≡ false → b ≡ true
accepted_name true h = refl
accepted_name false h = cc

pub Ensures-read_room_name : Ensures IsRoomName read_room_name
unfolding read_room_name
Ensures-read_room_name = Ensures-bind _ Ensures-read_string_lossy (λ room _.
    Ensures-bind _ (Ensures-reject _ _) (λ _ h.
      Ensures-pure room (is_room_name-IsRoomName room (accepted_name (is_room_name room) h))))

pub Ensures-bounded_count :
    (count maximum : ℕ) (kind : String)
    → Ensures (λ n. n ≤ maximum) (bounded_count count maximum kind)
unfolding bounded_count
Ensures-bounded_count count maximum kind =
    Ensures-bind _ (Ensures-reject _ _) (λ _ h. Ensures-pure count (ltb_false→le count maximum h))

pub Ensures-read_country : Ensures Anything read_country
unfolding read_country
Ensures-read_country = Ensures-bind _ Ensures-read_string_lossy (λ value _. Ensures-pure _ tt)

Ensures-read_interest : Ensures (IsBounded max_user_interest_bytes) read_interest
unfolding read_interest
Ensures-read_interest = Ensures-bind _ Ensures-read_string_lossy (λ interest _.
    Ensures-bind _ (Ensures-reject _ _)
      (λ _ h. Ensures-pure interest (empty_or_over-IsBounded max_user_interest_bytes interest h)))

abbrev pub AreInterests : List Bytes → Type 0
AreInterests interests =
    (length interests ≤ max_user_interests) × All (IsBounded max_user_interest_bytes) interests

pub Ensures-read_interests : (kind : String) → Ensures AreInterests (read_interests kind)
unfolding read_interests
Ensures-read_interests kind = Ensures-bind _ Ensures-read_u32 (λ count _.
    Ensures-bind _ (Ensures-reject _ _) (λ _ h.
      Ensures-repeat_le max_user_interests count (ltb_false→le count max_user_interests h)
        Ensures-read_interest))
