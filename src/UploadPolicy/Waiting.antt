-- ===== src/UploadPolicy/Waiting.antt =====
-- The queued uploads that upload_policy.rs chooses from, and the least count among them.
use forever.Prelude.{
  ℕ, zero, suc, ◌+◌, ◌≤◌, ◌≡◌, refl, ap, subst, sym, ◌∙◌, if◌then◌else◌, Bool, true, false, Option,
  none, some, List, [], ◌∷◌, All, get_elem?, arith, Bool-cases, Option-cases, inl, inr, min,
  All-imp,
}
use forever.Bytes.{Bytes}
use forever.Text.{to_ascii_lowercase}
use forever.Uploads.Types.{UploadSnapshot, is_queued}
use forever.UploadPolicy.{waiting_from, minimum}

-- What holds of the queued uploads holds of the list.
pub waiting_from-All :
    (P : ℕ × Bytes → Type 0) (k : ℕ) (us : List UploadSnapshot)
    → ((j : ℕ) (u : UploadSnapshot)
        → get_elem? us j ≡ some u
        → is_queued u.status ≡ true
        → P (k + j, to_ascii_lowercase u.username))
    → All P (waiting_from k us)
unfolding waiting_from
waiting_from-All P k [] h = tt
waiting_from-All P k (u ∷ us) h =
    let rest = waiting_from-All P (suc k) us (λ j v e q.
      subst (λ i. P (i, to_ascii_lowercase v.username)) (omega arith) (h (suc j) v e q)) in
    elim (Bool-cases (is_queued u.status)) [
      | inr out ↦ rw out rest
      | inl waits ↦
          rw waits (
            subst (λ i. P (i, to_ascii_lowercase u.username)) (omega arith) (h 0 u refl waits),
            rest,
          )
    ]

behind :
    (P : ℕ × Bytes → Type 0) (b : Bool) (c : ℕ × Bytes) (rest : List (ℕ × Bytes))
    → All P (if b then c ∷ rest else rest)
    → All P rest
behind P true c rest (h, hs) = hs
behind P false c rest h = h

front :
    (P : ℕ × Bytes → Type 0) (b : Bool) (c : ℕ × Bytes) (rest : List (ℕ × Bytes))
    → b ≡ true
    → All P (if b then c ∷ rest else rest)
    → P c
front P true c rest e (h, hs) = h
front P false c rest e h = absurd cc

pub some_inj {ℓ} : {A : Type ℓ} (a b : A) → some a ≡ some b → a ≡ b
some_inj a b e = cc

-- What holds of the list holds of each queued upload.
pub waiting_from-each :
    (P : ℕ × Bytes → Type 0) (k : ℕ) (us : List UploadSnapshot)
    → All P (waiting_from k us)
    → (j : ℕ) (u : UploadSnapshot) → get_elem? us j ≡ some u
    → is_queued u.status ≡ true
    → P (k + j, to_ascii_lowercase u.username)
unfolding waiting_from
waiting_from-each P k [] h j u e q = absurd cc
waiting_from-each P k (v ∷ us) h zero u e q =
    let same : v ≡ u = some_inj v u e in
    let waits : is_queued v.status ≡ true = ap (λ w. is_queued w.status) same ∙ q in
    subst P (ap (λ w. (k + 0, to_ascii_lowercase w.username)) same) (
      subst (λ i. P (i, to_ascii_lowercase v.username)) (omega arith)
        (front P (is_queued v.status) (k, to_ascii_lowercase v.username) (waiting_from (suc k) us)
          waits h))
waiting_from-each P k (v ∷ us) h (suc j) u e q =
    subst (λ i. P (i, to_ascii_lowercase u.username)) (omega arith)
      (waiting_from-each P (suc k) us
        (behind P (is_queued v.status) (k, to_ascii_lowercase v.username) (waiting_from (suc k) us)
          h)
        j u e q)

pub minimum-none : (f : ℕ × Bytes → ℕ) (cs : List (ℕ × Bytes)) → minimum f cs ≡ none → cs ≡ []
unfolding minimum
minimum-none f [] e = refl
minimum-none f (c ∷ cs) e = absurd (go (minimum f cs) e)
  where
    go : (o : Option ℕ) → elim o [ none ↦ some (f c) | some m ↦ some (min (f c) m) ] ≡ none → ⊥
    go none e = cc
    go (some m) e = cc

pub minimum-le :
    (f : ℕ × Bytes → ℕ) (cs : List (ℕ × Bytes)) (m : ℕ)
    → minimum f cs ≡ some m
    → All (λ c. m ≤ f c) cs
unfolding minimum
minimum-le f [] m e = tt
minimum-le f (c ∷ cs) m e = elim (Option-cases (minimum f cs)) [
  | inl last ↦
      let same : f c ≡ m = some_inj (f c) m (sym (rw (last, minimum) refl) ∙ e) in
      (omega (arith, same), subst (All (λ c'. m ≤ f c')) (sym (minimum-none f cs last)) tt)
  | inr (n, least) ↦
      let same : min (f c) n ≡ m = some_inj (min (f c) n) m (sym (rw (least, minimum) refl) ∙ e) in
      (
        omega (arith, same),
        All-imp _ _ cs (λ c' (le : n ≤ f c'). omega (arith, same, le)) (minimum-le f cs n least),
      )
]
