-- ===== src/UploadPolicy/Choice.antt =====
-- The choice among the candidates of upload_policy.rs.
use forever.Prelude.{
  ℕ, min, ◌≡◌, refl, ap, sym, ◌∙◌, inl, inr, Bool, true, false, ◌&&◌, some, List, [], ◌∷◌, All, all,
  keep, arith, Bool-cases, Option-cases, if◌then◌else◌, ==_refl, and_parts, ◌==◌,
}
use forever.Bytes.{Bytes}
use forever.UploadPolicy.{FairScheduler, contains, key_lt, key_of, least, minimum, before}
use forever.UploadPolicy.Waiting.{some_inj}

-- An order whose first part is a test prefers what fails the test.
prefer :
    (p : ℕ × Bytes → Bool) (c d : ℕ × Bytes) (a b t : Bool)
    → p c ≡ a
    → p d ≡ b
    → p (if before b a t then d else c) ≡ a && b
prefer p c d true true true e e' = e'
prefer p c d true true false e e' = e
prefer p c d true false t e e' = e'
prefer p c d false true t e e' = e
prefer p c d false false true e e' = e'
prefer p c d false false false e e' = e

either : (b : Bool) (P : ℕ × Bytes → Type 0) (c d : ℕ × Bytes) → P c → P d → P (if b then d else c)
either true P c d hc hd = hd
either false P c d hc hd = hc

module _ (s : FairScheduler) where
  pub least-All :
      (P : ℕ × Bytes → Type 0) (cs : List (ℕ × Bytes)) (c : ℕ × Bytes)
      → P c
      → All P cs
      → P (least s c cs)
  unfolding least
  least-All P [] c h hs = h
  least-All P (d ∷ cs) c h (hd, hs) =
      least-All P cs _ (either (key_lt (key_of s d) (key_of s c)) P c d h hd) hs

  -- The better of two candidates was served only if both were.
  better-served :
      (c d : ℕ × Bytes)
      → contains s.served (if key_lt (key_of s d) (key_of s c) then d else c).1
        ≡ contains s.served c.1 && contains s.served d.1
  unfolding key_lt key_of
  better-served (i, user) (j, other) =
      prefer (λ c. contains s.served c.1) (i, user) (j, other) (contains s.served user)
        (contains s.served other) _ refl refl

  pub least-unserved :
      (cs : List (ℕ × Bytes)) (c : ℕ × Bytes)
      → all (λ c. contains s.served c.1) (c ∷ cs) ≡ false
      → contains s.served (least s c cs).1 ≡ false
  unfolding least
  least-unserved [] c h = last (contains s.served c.1) h
    where
      last : (b : Bool) → b && true ≡ false → b ≡ false
      last true e = e
      last false e = refl
  least-unserved (d ∷ cs) c h =
      least-unserved cs _
        (rw (better-served c d) (regroup (contains s.served c.1) (contains s.served d.1) _ h))
    where
      regroup : (a b t : Bool) → a && (b && t) ≡ false → (a && b) && t ≡ false
      regroup true b t e = e
      regroup false b t e = refl

pub all-All : {A : Type 0} (p : A → Bool) (xs : List A) → all p xs ≡ true → All (λ x. p x ≡ true) xs
all-All p [] h = tt
all-All p (x ∷ xs) h =
    let (first, rest) = and_parts (p x) (all p xs) h in (first, all-All p xs rest)

pub keep-All : {A : Type 0} (p : A → Bool) (xs : List A) → All (λ x. p x ≡ true) (keep p xs)
keep-All p [] = tt
keep-All p (x ∷ xs) = kept (p x) refl (keep-All p xs)
  where
    kept :
        (b : Bool)
        → p x ≡ b
        → All (λ x. p x ≡ true) (keep p xs)
        → All (λ x. p x ≡ true) (elim b [ true ↦ x ∷ keep p xs | false ↦ keep p xs ])
    kept true e rest = (e, rest)
    kept false e rest = rest

-- Some candidate has the least count.
pub minimum-attained :
    (f : ℕ × Bytes → ℕ) (cs : List (ℕ × Bytes)) (m : ℕ)
    → minimum f cs ≡ some m
    → keep (λ c. f c == m) cs ≡ []
    → ⊥
unfolding minimum
minimum-attained f [] m e h = cc
minimum-attained f (c ∷ cs) m e h = elim (Option-cases (minimum f cs)) [
  | inl last ↦
      let same : f c ≡ m = some_inj (f c) m (sym (rw (last, minimum) refl) ∙ e) in
      kept (f c == m) (rw same (==_refl m)) h
  | inr (n, found) ↦
      let same : min (f c) n ≡ m = some_inj (min (f c) n) m (sym (rw (found, minimum) refl) ∙ e) in
      elim (Bool-cases (f c == m)) [
        | inl is_least ↦ kept (f c == m) is_least h
        | inr is_more ↦
            let rest : n ≡ m = ground (arith, same, is_more) in
            minimum-attained f cs m (found ∙ ap some rest) (dropped (f c == m) is_more h)
      ]
]
  where
    kept :
        (b : Bool)
        → b ≡ true
        → elim b [ true ↦ c ∷ keep (λ c. f c == m) cs | false ↦ keep (λ c. f c == m) cs ] ≡ []
        → ⊥
    kept true e' h' = cc
    kept false e' h' = cc

    dropped :
        (b : Bool)
        → b ≡ false
        → elim b [ true ↦ c ∷ keep (λ c. f c == m) cs | false ↦ keep (λ c. f c == m) cs ] ≡ []
        → keep (λ c. f c == m) cs ≡ []
    dropped true e' h' = absurd cc
    dropped false e' h' = h'
