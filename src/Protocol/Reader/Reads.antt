-- ===== src/Protocol/Reader/Reads.antt =====
-- Rules for what an action of protocol.rs's `PayloadReader` reads off given bytes.
use forever.Prelude.{
  ℕ, ◌+◌, ◌-◌, ◌^◌, ◌≤◌, ◌<◌, leb, ◌≡◌, refl, sym, ap, ◌∙◌, subst, Bool, true, false, some, List,
  [], ◌∷◌, ◌++◌, append_assoc, append-nil, map, arith, length, take, drop, get_elem?, length-append,
  take-append, drop-append, lt→ltb, le→leb, All, not, ◌==◌, ==_refl,
}
use forever.Bytes.{Bytes, le_bytes, from_le}
use forever.Bytes.Laws.{length-le_bytes, from_le-le_bytes}
use forever.Text.Utf8.{IsText, from_utf8_lossy, from_utf8_lossy-id}
use forever.Protocol.Error.{Result, ok, ProtocolError}
use forever.Protocol.Writer.Layout.{string_bytes}
use forever.Protocol.Reader.{
  PayloadReader, Reader, pure, evaluate, ◌>>=◌, reject, remaining, usize_range, read_bytes,
  get_range, read_u8, read_bool, expect_word, read_u32, read_u64, read_string_lossy, repeat,
  read_if,
}

-- A reader that has read `front` and has `rest` ahead of it.
abbrev pub between : Bytes → Bytes → PayloadReader
between front rest = record { payload = front ++ rest; position = length front }

-- The action reads exactly `e`, wherever it stands, and returns `a`.
pub record Reads {ℓ} {A : Type ℓ} (m : Reader A) (e : Bytes) (a : A) : Type ℓ where
  pub run :
      (front rest : Bytes)
      → length front + (length e + length rest) < usize_range
      → m (between front (e ++ rest)) ≡ ok (a, between (front ++ e) rest)

-- The action reads all that is left, `e`, and returns `a`.
pub record Ends {ℓ} {A : Type ℓ} (m : Reader A) (e : Bytes) (a : A) : Type ℓ where
  pub run :
      (front : Bytes)
      → length front + length e < usize_range
      → m (between front e) ≡ ok (a, between (front ++ e) [])

module _ {ℓ} {A : Type ℓ} where
  pub Reads-pure : (a : A) → Reads (pure a) [] a
  unfolding pure
  Reads-pure a = record { run = λ front rest h. rw (append-nil front) }

  pub Reads-Ends : {m : Reader A} {e : Bytes} {a : A} → Reads m e a → Ends m e a
  Reads-Ends h = record { run = λ front small. rw append-nil at (h.run front [] (omega arith)) }

  pub Ends-evaluate :
      (m : Reader A) (e : Bytes) (a : A) → Ends m e a → length e < usize_range → evaluate m e ≡ ok a
  unfolding evaluate
  Ends-evaluate m e a h small = rw (h.run [] (omega arith), evaluate)

module _ {ℓ κ} {A : Type ℓ} {B : Type κ} where
  pub bind_ok :
      (m : Reader A) (f : A → Reader B) (r : PayloadReader) {a : A} {r' : PayloadReader}
      → m r ≡ ok (a, r')
      → (m >>= f) r ≡ f a r'
  unfolding ◌>>=◌
  bind_ok m f r h = rw (h, ◌>>=◌)

  pub Reads-bind :
      {m : Reader A} (f : A → Reader B) {e d : Bytes} {a : A} {b : B}
      → Reads m e a
      → Reads (f a) d b
      → Reads (m >>= f) (e ++ d) b
  Reads-bind {m} f {e} {d} {a} {b} hm hf = record {
    run = λ front rest small.
        let len : length (e ++ d) ≡ length e + length d = length-append e d in
        let len' : length (d ++ rest) ≡ length d + length rest = length-append d rest in
        let len'' : length (front ++ e) ≡ length front + length e = length-append front e in
        rw (append_assoc e d rest) (
          bind_ok m f (between front (e ++ (d ++ rest))) (hm.run front (d ++ rest) (omega arith))
          ∙ hf.run (front ++ e) rest (omega arith)
          ∙ ap (λ l. ok (b, between l rest)) (append_assoc front e d));
  }

  -- The last read of a block, whose result is put into a value.
  pub Reads-bind_pure :
      {m : Reader A} (f : A → B) {e : Bytes} {a : A}
      → Reads m e a
      → Reads (m >>= λ x. pure (f x)) e (f a)
  Reads-bind_pure {m} f {e} {a} h =
      subst (λ d. Reads (m >>= λ x. pure (f x)) d (f a)) (append-nil e)
        (Reads-bind (λ x. pure (f x)) h (Reads-pure (f a)))

  pub Ends-bind :
      {m : Reader A} (f : A → Reader B) {e d : Bytes} {a : A} {b : B}
      → Reads m e a
      → Ends (f a) d b
      → Ends (m >>= f) (e ++ d) b
  Ends-bind {m} f {e} {d} {a} {b} hm hf = record {
    run = λ front small.
        let len : length (e ++ d) ≡ length e + length d = length-append e d in
        let len'' : length (front ++ e) ≡ length front + length e = length-append front e in
        bind_ok m f (between front (e ++ d)) (hm.run front d (omega arith))
        ∙ hf.run (front ++ e) (omega arith)
        ∙ ap (λ l. ok (b, between l [])) (append_assoc front e d);
  }

module _ {ℓ} {A : Type ℓ} where
  -- At the end the bytes that are left can be counted.
  pub Ends-remaining :
      (f : ℕ → Reader A) (e : Bytes) (a : A) → Ends (f (length e)) e a → Ends (remaining >>= f) e a
  unfolding remaining
  Ends-remaining f e a h = record {
    run = λ front small.
        let count : length (front ++ e) - length front ≡ length e =
          omega (arith, length-append front e) in
        bind_ok remaining f (between front e) refl
        ∙ ap (λ n. f n (between front e)) count
        ∙ h.run front small;
  }

  pub Ends-pure : (a : A) → Ends (pure a) [] a
  Ends-pure a = Reads-Ends (Reads-pure a)

pub Reads-reject : (b : Bool) (e : ProtocolError) → b ≡ false → Reads (reject b e) [] tt
unfolding reject
Reads-reject b e h = record { run = λ front rest small. rw (h, append-nil front) }

pub Reads-read_bytes : (e : Bytes) → Reads (read_bytes (length e)) e e
unfolding read_bytes get_range
Reads-read_bytes e = record {
  run = λ front rest small.
      let whole : length (front ++ (e ++ rest)) ≡ length front + (length e + length rest) =
        length-append front (e ++ rest) ∙ ap (λ n. length front + n) (length-append e rest) in
      let size : length front + length e - length front ≡ length e = omega arith in
      let behind : take (length e) (drop (length front) (front ++ (e ++ rest))) ≡ e =
        ap (take (length e)) (drop-append front (e ++ rest)) ∙ take-append e rest in
      rw (
        lt→ltb (length front + length e) usize_range (omega arith),
        le→leb (length front) (length front + length e) (omega arith),
        le→leb (length front + length e) (length (front ++ (e ++ rest))) (omega arith),
        size,
        behind,
        ← length-append front e,
        ← append_assoc front e rest,
      );
}

pub Reads-word : (k v : ℕ) → Reads (read_bytes k) (le_bytes k v) (le_bytes k v)
Reads-word k v =
    subst (λ n. Reads (read_bytes n) (le_bytes k v) (le_bytes k v)) (length-le_bytes k v)
      (Reads-read_bytes (le_bytes k v))

pub Reads-expect_word :
    (size : ℕ) (bytes : Bytes)
    → length bytes ≡ size
    → Reads (expect_word size bytes) [] (from_le bytes)
unfolding expect_word
Reads-expect_word size bytes h = record {
  run = λ front rest small. rw (h, ==_refl size, append-nil front);
}

-- `read_uN` of what `to_le_bytes` wrote.
Reads-number : (k v : ℕ) → v < 256 ^ k → Reads (read_bytes k >>= expect_word k) (le_bytes k v) v
Reads-number k v small =
    subst (λ e. Reads (read_bytes k >>= expect_word k) e v) (append-nil (le_bytes k v))
      (subst (λ n. Reads (read_bytes k >>= expect_word k) (le_bytes k v ++ []) n)
        (from_le-le_bytes k v small)
        (Reads-bind (expect_word k) (Reads-word k v)
          (Reads-expect_word k (le_bytes k v) (length-le_bytes k v))))

pub Reads-read_u32 : (v : ℕ) → v < 2 ^ 32 → Reads read_u32 (le_bytes 4 v) v
unfolding read_u32
Reads-read_u32 v h = Reads-number 4 v (omega arith)

pub Reads-read_u64 : (v : ℕ) → v < 2 ^ 64 → Reads read_u64 (le_bytes 8 v) v
unfolding read_u64
Reads-read_u64 v h = Reads-number 8 v (omega arith)

get_elem?-append {ℓ} :
    {A : Type ℓ} (front rest : List A) (b : A)
    → get_elem? (front ++ b ∷ rest) (length front) ≡ some b
get_elem?-append [] rest b = refl
get_elem?-append (x ∷ front) rest b = get_elem?-append front rest b

past_one : (front : Bytes) (b : ℕ) → length front + 1 ≡ length (front ++ b ∷ [])
past_one front b = sym (length-append front (b ∷ []))

pub Reads-read_u8 : (b : ℕ) → Reads read_u8 (b ∷ []) b
unfolding read_u8
Reads-read_u8 b = record {
  run = λ front rest small. rw (
    get_elem?-append front rest b,
    read_u8,
    past_one front b,
    ← append_assoc front (b ∷ []) rest,
  );
}

-- `u8::from(b)`
abbrev pub bool_byte : Bool → ℕ
bool_byte true = 1
bool_byte false = 0

pub Reads-read_bool : (b : Bool) → Reads read_bool (bool_byte b ∷ []) b
unfolding read_bool
Reads-read_bool b = record {
  run = λ front rest small.
      rw
        (
          get_elem?-append front rest (bool_byte b),
          read_bool,
          past_one front (bool_byte b),
          ← append_assoc front (bool_byte b ∷ []) rest,
        )
        (truth b (between (front ++ bool_byte b ∷ []) rest));
}
  where
    truth :
        (b : Bool) (r : PayloadReader)
        → ◌≡◌ {A = Result (Bool × PayloadReader)} (ok (not (bool_byte b == 0), r)) (ok (b, r))
    truth true r = refl
    truth false r = refl

pub Reads-read_string_lossy :
    (s : Bytes) → length s < 2 ^ 32 → IsText s → Reads read_string_lossy (string_bytes s) s
unfolding read_string_lossy string_bytes
Reads-read_string_lossy s h utf8 =
    subst (λ v. Reads read_string_lossy (le_bytes 4 (length s) ++ s) v) (from_utf8_lossy-id s utf8)
      (Reads-bind _ (Reads-read_u32 (length s) h)
        (Reads-bind_pure from_utf8_lossy (Reads-read_bytes s)))

-- The elements' bytes, one after the other.
abbrev pub all_bytes {ℓ} : {A : Type ℓ} → (A → Bytes) → List A → Bytes
all_bytes wire [] = []
all_bytes wire (x ∷ xs) = wire x ++ all_bytes wire xs

module _ {ℓ κ} {A : Type ℓ} {B : Type κ} (item : Reader B) (wire : A → Bytes) (value : A → B) where
  -- A counted loop reads the elements in order.
  pub Reads-repeat :
      (xs : List A)
      → All (λ x. Reads item (wire x) (value x)) xs
      → Reads (repeat (length xs) item) (all_bytes wire xs) (map value xs)
  unfolding repeat
  Reads-repeat [] h = Reads-pure []
  Reads-repeat (x ∷ xs) (h, hs) =
      Reads-bind _ h (Reads-bind_pure (λ rest. value x ∷ rest) (Reads-repeat xs hs))

module _ {ℓ κ} {A : Type ℓ} {B : Type κ} where
  -- An optional tail that is there: `if reader.remaining() >= n { … }`.
  pub Ends-if_left :
      (n : ℕ) {item : Reader A} (default : A) (k : A → Reader B) {e d : Bytes} {a : A} {b : B}
      → n ≤ length e
      → Reads item e a
      → Ends (k a) d b
      → Ends (remaining >>= λ left. read_if (leb n left) item default >>= k) (e ++ d) b
  unfolding read_if
  Ends-if_left n {item} default k {e} {d} {a} {b} enough h h' = Ends-remaining _ (e ++ d) b (
      subst (λ t. Ends (read_if t item default >>= k) (e ++ d) b)
        (sym (le→leb n (length (e ++ d)) (omega (arith, length-append e d)))) (Ends-bind k h h'))
