-- ===== src/UploadPolicy/Order.antt =====
-- The order of the keys of upload_policy.rs, by a number and an index.
use forever.Prelude.{
  ℕ, ◌+◌, ◌*◌, ◌<◌, ◌≤◌, ◌≡◌, refl, ap, ◌⊎◌, inl, inr, Bool, true, false, List, [], ◌∷◌, All, arith,
  Bool-cases, if◌then◌else◌, ltb→lt, ltb_false→le,
}
use forever.Bytes.{Bytes}
use forever.UploadPolicy.{FairScheduler, before, key_lt, key_of, least, Key}

abbrev pub bit : Bool → ℕ
bit true = 1
bit false = 0

bit_le : (b : Bool) → bit b ≤ 1
bit_le true = omega arith
bit_le false = omega arith

before-true :
    (a b t : Bool) → before a b t ≡ true → (bit a < bit b) ⊎ ((bit a ≡ bit b) × (t ≡ true))
before-true true true t h = inr (refl, h)
before-true true false t h = absurd cc
before-true false true t h = inl (omega arith)
before-true false false t h = inr (refl, h)

before-false :
    (a b t : Bool) → before a b t ≡ false → (bit b < bit a) ⊎ ((bit a ≡ bit b) × (t ≡ false))
before-false true true t h = inr (refl, h)
before-false true false t h = inl (omega arith)
before-false false true t h = absurd cc
before-false false false t h = inr (refl, h)

abbrev pub rank : Key → ℕ
rank (a, b, c, i) = 4 * bit a + 2 * bit b + bit c

abbrev pub index : Key → ℕ
index (a, b, c, i) = i

-- The first key is not after the second.
abbrev pub Le : Key → Key → Type 0
Le k k' = (rank k < rank k') ⊎ ((rank k ≡ rank k') × (index k ≤ index k'))

Le_trans : (k l m : Key) → Le k l → Le l m → Le k m
Le_trans k l m (inl x) (inl y) = inl (omega (arith, x, y))
Le_trans k l m (inl x) (inr y) = inl (omega (arith, x, y))
Le_trans k l m (inr x) (inl y) = inl (omega (arith, x, y))
Le_trans k l m (inr x) (inr y) = inr (omega (arith, x, y), omega (arith, x, y))

key_lt-Le : (k k' : Key) → key_lt k k' ≡ true → Le k k'
unfolding key_lt
key_lt-Le (a, b, c, i) (a', b', c', i') h = elim (before-true a a' _ h) [
  | inl less ↦ inl (omega (arith, less, bit_le b, bit_le c, bit_le b', bit_le c'))
  | inr (same, h1) ↦ elim (before-true b b' _ h1) [
    | inl less ↦ inl (omega (arith, same, less, bit_le c, bit_le c'))
    | inr (same1, h2) ↦ elim (before-true c c' _ h2) [
      | inl less ↦ inl (omega (arith, same, same1, less))
      | inr (same2, h3) ↦
          let lt : i < i' = ltb→lt i i' h3 in
          inr (omega (arith, same, same1, same2), omega (arith, lt))
    ]
  ]
]

not_lt-Le : (k k' : Key) → key_lt k k' ≡ false → Le k' k
unfolding key_lt
not_lt-Le (a, b, c, i) (a', b', c', i') h = elim (before-false a a' _ h) [
  | inl less ↦ inl (omega (arith, less, bit_le b, bit_le c, bit_le b', bit_le c'))
  | inr (same, h1) ↦ elim (before-false b b' _ h1) [
    | inl less ↦ inl (omega (arith, same, less, bit_le c, bit_le c'))
    | inr (same1, h2) ↦ elim (before-false c c' _ h2) [
      | inl less ↦ inl (omega (arith, same, same1, less))
      | inr (same2, h3) ↦
          let le : i' ≤ i = ltb_false→le i' i h3 in inr (omega (arith, same, same1, same2), le)
    ]
  ]
]

Le_refl : (k : Key) → Le k k
Le_refl k = inr (refl, omega arith)

module _ (s : FairScheduler) where
  abbrev pub Better : ℕ × Bytes → ℕ × Bytes → Type 0
  Better c d = Le (key_of s c) (key_of s d)

  preferred-Better :
      (c d : ℕ × Bytes)
      → Better (if key_lt (key_of s d) (key_of s c) then d else c) c
        × Better (if key_lt (key_of s d) (key_of s c) then d else c) d
  preferred-Better c d = elim (Bool-cases (key_lt (key_of s d) (key_of s c))) [
    | inl lt ↦ rw lt (key_lt-Le (key_of s d) (key_of s c) lt, Le_refl (key_of s d))
    | inr ge ↦ rw ge (Le_refl (key_of s c), not_lt-Le (key_of s d) (key_of s c) ge)
  ]

  -- The choice comes before every candidate in the order of the keys.
  pub least-Better :
      (cs : List (ℕ × Bytes)) (c : ℕ × Bytes) → All (λ d. Better (least s c cs) d) (c ∷ cs)
  unfolding least
  least-Better [] c = (Le_refl (key_of s c), tt)
  least-Better (d ∷ cs) c =
      let (first, rest) = least-Better cs (if key_lt (key_of s d) (key_of s c) then d else c) in
      let (over_c, over_d) = preferred-Better c d in
      (Le_trans _ _ (key_of s c) first over_c, (Le_trans _ _ (key_of s d) first over_d, rest))

  pub same_user : (c d : ℕ × Bytes) → Better c d → c.1 ≡ d.1 → c.0 ≤ d.0
  unfolding key_of
  same_user (i, user) (j, other) h e =
      let same : rank (key_of s (0, user)) ≡ rank (key_of s (0, other)) =
        ap (λ u. rank (key_of s (0, u))) e in
      elim h [ inl less ↦ absurd (omega (arith, less, same)) | inr (_, le) ↦ le ]
