-- ===== src/Protocol/Reader/Ensures.antt =====
-- Rules for what an action of protocol.rs's `PayloadReader` does on any payload, however malformed.
use forever.Prelude.{
  ℕ, zero, suc, ◌+◌, ◌-◌, ◌^◌, ◌≤◌, ◌<◌, ◌≡◌, refl, ap, ◌∙◌, subst, Bool, true, false, Option, none,
  some, List, [], ◌∷◌, arith, length, take, drop, get_elem?, length-take, length-drop, All, leb,
  ltb, Bool-cases, inl, inr, Option-cases, leb→le, le→leb, if◌then◌else◌, ==_refl,
}
use forever.Bytes.{Bytes, IsBytes, from_le}
use forever.Bytes.Laws.{from_le-lt}
use forever.Text.Utf8.{from_utf8}
use forever.Protocol.Error.{Result, ok, err, panicked, ProtocolError}
use forever.Protocol.Reader.{
  PayloadReader, Reader, new, pure, fail, evaluate, ◌>>=◌, reject, remaining, usize_range,
  read_bytes, get_range, read_u8, read_bool, expect_word, read_u16, read_u32, read_u64, read_i32,
  read_string, read_string_lossy, or_invalid_utf8, read_ipv4, reversed_ipv4, repeat, read_if,
}

-- A reader that has not run past its payload, which is made of bytes.
pub record IsInside (r : PayloadReader) : Type 0 where
  pub within : r.position ≤ length r.payload
  pub bytes : IsBytes r.payload

-- Success with `P`, in the same payload and no earlier in it, or an error. Never a panic.
abbrev pub Outcome :
    {A : Type 0} → (A → Type 0) → PayloadReader → Result (A × PayloadReader) → Type 0
Outcome P r (ok (a, r')) = P a × (r'.payload ≡ r.payload) × (r.position ≤ r'.position) × IsInside r'
Outcome P r (err e) = Unit
Outcome P r panicked = ⊥

pub record Ensures {A : Type 0} (P : A → Type 0) (m : Reader A) : Type 0 where
  pub at : (r : PayloadReader) → IsInside r → Outcome P r (m r)

module _ {A : Type 0} {P : A → Type 0} where
  pub Ensures-pure : (a : A) → P a → Ensures P (pure a)
  unfolding pure
  Ensures-pure a h = record { at = λ r inside. (h, refl, omega arith, inside) }

  pub Ensures-fail : (e : ProtocolError) → Ensures P (fail {A = A} e)
  unfolding fail
  Ensures-fail e = record { at = λ r inside. tt }

module _ {A B : Type 0} {P : A → Type 0} {Q : B → Type 0} where
  continue :
      (f : A → Reader B) (r : PayloadReader)
      → ((a : A) → P a → Ensures Q (f a))
      → (result : Result (A × PayloadReader)) → Outcome P r result
      → Outcome Q r (elim result [ ok (a, r') ↦ f a r' | err e ↦ err e | panicked ↦ panicked ])
  continue f r k (ok (a, r')) (h, same, later, inside) = widen (f a r') ((k a h).at r' inside)
    where
      widen : (result : Result (B × PayloadReader)) → Outcome Q r' result → Outcome Q r result
      widen (ok (b, r'')) (h', same', later', inside') = (h', same' ∙ same, omega arith, inside')
      widen (err e) h' = tt
      widen panicked h' = h'
  continue f r k (err e) h = tt
  continue f r k panicked h = h

  pub Ensures-bind :
      {m : Reader A} (f : A → Reader B)
      → Ensures P m
      → ((a : A) → P a → Ensures Q (f a))
      → Ensures Q (m >>= f)
  unfolding ◌>>=◌
  Ensures-bind {m} f h k = record { at = λ r inside. continue f r k (m r) (h.at r inside) }

weaker :
    {A : Type 0} (P Q : A → Type 0) (r : PayloadReader) (result : Result (A × PayloadReader))
    → ((a : A) → P a → Q a)
    → Outcome P r result
    → Outcome Q r result
weaker P Q r (ok (a, r')) f (h, rest, later, inside) = (f a h, rest, later, inside)
weaker P Q r (err e) f h = tt
weaker P Q r panicked f h = h

pub Ensures-weaken :
    {A : Type 0} {P Q : A → Type 0} {m : Reader A}
    → ((a : A) → P a → Q a)
    → Ensures P m
    → Ensures Q m
Ensures-weaken {P} {Q} {m} f h = record { at = λ r inside. weaker P Q r (m r) f (h.at r inside) }

pub Ensures-reject : (b : Bool) (e : ProtocolError) → Ensures (λ _. b ≡ false) (reject b e)
unfolding reject
Ensures-reject true e = record { at = λ r inside. tt }
Ensures-reject false e = record { at = λ r inside. (refl, refl, omega arith, inside) }

abbrev pub Anything : {A : Type 0} → A → Type 0
Anything a = Unit {0}

pub Ensures-remaining : Ensures Anything remaining
unfolding remaining
Ensures-remaining = record { at = λ r inside. (tt, refl, omega arith, inside) }

take-IsBytes : (n : ℕ) (bs : Bytes) → IsBytes bs → IsBytes (take n bs)
take-IsBytes zero bs h = tt
take-IsBytes (suc n) [] h = tt
take-IsBytes (suc n) (b ∷ bs) (h, hs) = (h, take-IsBytes n bs hs)

drop-IsBytes : (n : ℕ) (bs : Bytes) → IsBytes bs → IsBytes (drop n bs)
drop-IsBytes zero bs h = h
drop-IsBytes (suc n) [] h = tt
drop-IsBytes (suc n) (b ∷ bs) (h, hs) = drop-IsBytes n bs hs

abbrev pub IsBlock : ℕ → Bytes → Type 0
IsBlock n bytes = IsBytes bytes × (length bytes ≡ n)

get_range-IsBlock :
    (n : ℕ) (r : PayloadReader)
    → IsInside r
    → r.position + n ≤ length r.payload
    → IsBlock n (take (r.position + n - r.position) (drop r.position r.payload))
get_range-IsBlock n r inside fits = (
  take-IsBytes (r.position + n - r.position) _ (drop-IsBytes r.position r.payload inside.bytes),
  omega (
    arith,
    length-take (r.position + n - r.position) (drop r.position r.payload),
    length-drop r.position r.payload,
    inside.within,
  ),
)

pub Ensures-read_bytes : (n : ℕ) → Ensures (IsBlock n) (read_bytes n)
unfolding read_bytes get_range
Ensures-read_bytes n = record {
  at = λ r inside. elim (Bool-cases (ltb (r.position + n) usize_range)) [
    | inr over ↦ rw (over, read_bytes) tt
    | inl small ↦ elim (Bool-cases (leb (r.position + n) (length r.payload))) [
      | inr beyond ↦
          rw (small, le→leb r.position (r.position + n) (omega arith), beyond, read_bytes) tt
      | inl fits ↦
          let room : r.position + n ≤ length r.payload = leb→le _ _ fits in
          rw (small, le→leb r.position (r.position + n) (omega arith), fits, read_bytes)
            (
              get_range-IsBlock n r inside room,
              refl,
              omega arith,
              record { within = room; bytes = inside.bytes },
            )
    ]
  ];
}

ahead :
    (r : PayloadReader) (b : ℕ)
    → IsInside r
    → get_elem? r.payload r.position ≡ some b
    → (b < 256) × (r.position < length r.payload)
ahead r b inside h = go r.payload r.position inside.bytes h
  where
    go : (bs : Bytes) (i : ℕ) → IsBytes bs → get_elem? bs i ≡ some b → (b < 256) × (i < length bs)
    go [] i hs e = cc
    go (x ∷ bs) zero (hx, hs) e = ground arith
    go (x ∷ bs) (suc i) (hx, hs) e = let (lo, hi) = go bs i hs e in (lo, omega arith)

pub Ensures-read_u8 : Ensures (λ b. b < 256) read_u8
unfolding read_u8
Ensures-read_u8 = record {
  at = λ r inside. elim (Option-cases (get_elem? r.payload r.position)) [
    | inl e ↦ rw (e, read_u8) tt
    | inr (b, e) ↦
        let (byte, room) = ahead r b inside e in
        rw (e, read_u8)
          (byte, refl, omega arith, record { within = omega arith; bytes = inside.bytes })
  ];
}

pub Ensures-read_bool : Ensures Anything read_bool
unfolding read_bool
Ensures-read_bool = record {
  at = λ r inside. elim (Option-cases (get_elem? r.payload r.position)) [
    | inl e ↦ rw (e, read_bool) tt
    | inr (b, e) ↦
        let (byte, room) = ahead r b inside e in
        rw (e, read_bool)
          (tt, refl, omega arith, record { within = omega arith; bytes = inside.bytes })
  ];
}

-- A slice of the right size makes an array: no panic.
Ensures-expect_word :
    (k : ℕ) (bytes : Bytes) → IsBlock k bytes → Ensures (λ v. v < 256 ^ k) (expect_word k bytes)
unfolding expect_word
Ensures-expect_word k bytes (good, size) = record {
  at = λ r inside.
      rw (size, ==_refl k, expect_word)
        (
          subst (λ n. from_le bytes < 256 ^ n) size (from_le-lt bytes good),
          refl,
          omega arith,
          inside,
        );
}

Ensures-number : (k : ℕ) → Ensures (λ v. v < 256 ^ k) (read_bytes k >>= expect_word k)
Ensures-number k = Ensures-bind _ (Ensures-read_bytes k) (Ensures-expect_word k)

pub Ensures-read_u16 : Ensures (λ v. v < 2 ^ 16) read_u16
unfolding read_u16
Ensures-read_u16 = Ensures-number 2

pub Ensures-read_u32 : Ensures (λ v. v < 2 ^ 32) read_u32
unfolding read_u32
Ensures-read_u32 = Ensures-number 4

pub Ensures-read_u64 : Ensures (λ v. v < 2 ^ 64) read_u64
unfolding read_u64
Ensures-read_u64 = Ensures-number 8

pub Ensures-read_i32 : Ensures Anything read_i32
unfolding read_i32
Ensures-read_i32 = Ensures-bind _ (Ensures-read_bytes 4) (λ bytes block.
    Ensures-bind _ (Ensures-expect_word 4 bytes block) (λ word _. Ensures-pure _ tt))

pub Ensures-or_invalid_utf8 :
    {P : Bytes → Type 0} (o : Option Bytes)
    → ((s : Bytes) → o ≡ some s → P s)
    → Ensures P (or_invalid_utf8 o)
unfolding or_invalid_utf8
Ensures-or_invalid_utf8 none h = Ensures-fail _
Ensures-or_invalid_utf8 (some s) h = Ensures-pure s (h s refl)

pub Ensures-read_string : Ensures Anything read_string
unfolding read_string
Ensures-read_string = Ensures-bind _ Ensures-read_u32 (λ n _.
    Ensures-bind _ (Ensures-read_bytes n)
      (λ bytes _. Ensures-or_invalid_utf8 (from_utf8 bytes) (λ s _. tt)))

pub Ensures-read_string_lossy : Ensures Anything read_string_lossy
unfolding read_string_lossy
Ensures-read_string_lossy =
    Ensures-bind _ Ensures-read_u32
      (λ n _. Ensures-bind _ (Ensures-read_bytes n) (λ bytes _. Ensures-pure _ tt))

reversed : (bytes : Bytes) → length bytes ≡ 4 → Ensures Anything (reversed_ipv4 bytes)
unfolding reversed_ipv4
reversed (w ∷ x ∷ y ∷ z ∷ []) h = record { at = λ r inside. (tt, refl, omega arith, inside) }
reversed [] h = absurd (omega arith)
reversed (w ∷ []) h = absurd (omega arith)
reversed (w ∷ x ∷ []) h = absurd (omega arith)
reversed (w ∷ x ∷ y ∷ []) h = absurd (omega arith)
reversed (w ∷ x ∷ y ∷ z ∷ v ∷ bytes) h = absurd (omega arith)

pub Ensures-read_ipv4 : Ensures Anything read_ipv4
unfolding read_ipv4
Ensures-read_ipv4 = Ensures-bind _ (Ensures-read_bytes 4) (λ bytes block. reversed bytes block.1)

-- A counted loop that ends has read as many items as it was told.
abbrev pub Counted : {A : Type 0} → (A → Type 0) → ℕ → List A → Type 0
Counted P n xs = (length xs ≡ n) × All P xs

module _ {A : Type 0} {P : A → Type 0} {item : Reader A} where
  pub Ensures-repeat : (n : ℕ) → Ensures P item → Ensures (Counted P n) (repeat n item)
  unfolding repeat
  Ensures-repeat zero h = Ensures-pure [] (refl, tt)
  Ensures-repeat (suc n) h = Ensures-bind _ h (λ x hx.
      Ensures-bind _ (Ensures-repeat n h)
        (λ xs hxs. Ensures-pure (x ∷ xs) (ap suc hxs.0, (hx, hxs.1))))

  -- The same with a bound on the count.
  pub Ensures-repeat_le :
      (maximum n : ℕ)
      → n ≤ maximum
      → Ensures P item
      → Ensures (λ xs. (length xs ≤ maximum) × All P xs) (repeat n item)
  Ensures-repeat_le maximum n small h =
      Ensures-weaken (λ xs counted. (omega (arith, counted.0), counted.1)) (Ensures-repeat n h)

  pub Ensures-read_if :
      (b : Bool) (default : A) → Ensures P item → P default → Ensures P (read_if b item default)
  unfolding read_if
  Ensures-read_if true default h d = h
  Ensures-read_if false default h d = Ensures-pure default d

pub Ensures-if :
    {A : Type 0} {P : A → Type 0} {m n : Reader A} (b : Bool)
    → Ensures P m
    → Ensures P n
    → Ensures P (if b then m else n)
Ensures-if true h k = h
Ensures-if false h k = k

-- A read whose value the postcondition does not depend on.
pub Ensures-skip :
    {A B : Type 0} {Q : B → Type 0} {m : Reader A} (f : A → Reader B)
    → Ensures Anything m
    → ((a : A) → Ensures Q (f a))
    → Ensures Q (m >>= f)
Ensures-skip f h k = Ensures-bind f h (λ a _. k a)

pub forget : {A : Type 0} {P : A → Type 0} {m : Reader A} → Ensures P m → Ensures Anything m
forget h = Ensures-weaken (λ _ _. tt) h

pub skip_u32 : Ensures Anything read_u32
skip_u32 = forget Ensures-read_u32

pub skip_u8 : Ensures Anything read_u8
skip_u8 = forget Ensures-read_u8

pub skip_u16 : Ensures Anything read_u16
skip_u16 = forget Ensures-read_u16

pub skip_u64 : Ensures Anything read_u64
skip_u64 = forget Ensures-read_u64

pub skip_bytes : (n : ℕ) → Ensures Anything (read_bytes n)
skip_bytes n = forget (Ensures-read_bytes n)

pub skip_if :
    {A : Type 0} {item : Reader A} (b : Bool) (default : A)
    → Ensures Anything item
    → Ensures Anything (read_if b item default)
skip_if b default h = Ensures-read_if b default h tt

pub skip_repeat :
    {A : Type 0} {item : Reader A} (n : ℕ)
    → Ensures Anything item
    → Ensures Anything (repeat n item)
skip_repeat n h = forget (Ensures-repeat n h)

pub skip_reject : (b : Bool) (e : ProtocolError) → Ensures Anything (reject b e)
skip_reject b e = forget (Ensures-reject b e)

-- For `search`, on what stands between the reads that a postcondition is about.
pub ruleset skip_rules = (
  Ensures-skip, Ensures-pure, skip_reject, skip_u8, skip_u16, skip_u32, skip_u64, skip_bytes,
  skip_if, skip_repeat, Ensures-read_bool, Ensures-remaining, Ensures-read_i32, Ensures-read_string,
  Ensures-read_string_lossy, Ensures-read_ipv4,
)

-- What a parser returns: a value with `P` or an error, and no panic.
abbrev pub Sound : {A : Type 0} → (A → Type 0) → Result A → Type 0
Sound P (ok a) = P a
Sound P (err e) = Unit
Sound P panicked = ⊥

finished :
    {A : Type 0} (P : A → Type 0) (r : PayloadReader) (result : Result (A × PayloadReader))
    → Outcome P r result
    → Sound P (elim result [ ok (a, _) ↦ ok a | err e ↦ err e | panicked ↦ panicked ])
finished P r (ok (a, r')) h = h.0
finished P r (err e) h = tt
finished P r panicked h = h

pub Ensures-evaluate :
    {A : Type 0} {P : A → Type 0} {m : Reader A} (payload : Bytes)
    → Ensures P m
    → IsBytes payload
    → Sound P (evaluate m payload)
unfolding evaluate
Ensures-evaluate {P} {m} payload h bytes =
    finished P (new payload) (m (new payload))
      (h.at (new payload) (record { within = omega arith; bytes = bytes }))
