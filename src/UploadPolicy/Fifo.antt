-- ===== src/UploadPolicy/Fifo.antt =====
-- The uploads of one user in upload_policy.rs: first in, first out.
use forever.Prelude.{
  ℕ, zero, suc, ◌+◌, ◌<◌, ◌≤◌, ◌≡◌, refl, sym, ◌∙◌, subst, inl, inr, Bool, true, false, ◌&&◌,
  Option, none, some, List, [], ◌∷◌, All, All-imp, keep, take, get_elem?, arith, Bool-cases,
  Option-cases, and_parts, ◌==◌, ==→eq, ==_refl,
}
use forever.Bytes.{Bytes, bytes_eq}
use forever.Uploads.Types.{UploadSnapshot, is_queued}
use forever.UploadPolicy.{
  FairScheduler, active, waiting_from, minimum, least, new_round, serve, choose, candidates_of,
  take_for, take_next,
}
use forever.UploadPolicy.Waiting.{waiting_from-each}
use forever.UploadPolicy.Choice.{least-All, minimum-attained}
use forever.UploadPolicy.Fair.{user_of, IsQueuedAt, Candidate, candidates-All}
use forever.UploadPolicy.Order.{Better, least-Better, same_user}

-- No queued upload of the same user stands before the chosen one.
abbrev pub IsFirst : List UploadSnapshot → Option ℕ → Type 0
IsFirst uploads none = Unit
IsFirst uploads (some i) =
    (u : UploadSnapshot) × (get_elem? uploads i ≡ some u)
    × All (λ v. (is_queued v.status && bytes_eq (user_of v) (user_of u)) ≡ false) (take i uploads)

pub bytes_eq→eq : (xs ys : Bytes) → bytes_eq xs ys ≡ true → xs ≡ ys
unfolding bytes_eq
bytes_eq→eq [] [] h = refl
bytes_eq→eq [] (y ∷ ys) h = absurd cc
bytes_eq→eq (x ∷ xs) [] h = absurd cc
bytes_eq→eq (x ∷ xs) (y ∷ ys) h =
    let (first, rest) = and_parts (x == y) (bytes_eq xs ys) h in
    let same : x ≡ y = ==→eq x y first in let others : xs ≡ ys = bytes_eq→eq xs ys rest in cc

take-All :
    (P : UploadSnapshot → Type 0) (n : ℕ) (xs : List UploadSnapshot)
    → ((j : ℕ) (v : UploadSnapshot) → j < n → get_elem? xs j ≡ some v → P v)
    → All P (take n xs)
take-All P zero xs h = tt
take-All P (suc n) [] h = tt
take-All P (suc n) (x ∷ xs) h =
    (h 0 x (omega arith) refl, take-All P n xs (λ j v less e. h (suc j) v (omega arith) e))

keep-each :
    (P : ℕ × Bytes → Type 0) (p : ℕ × Bytes → Bool) (cs : List (ℕ × Bytes))
    → All P (keep p cs)
    → All (λ c. p c ≡ true → P c) cs
keep-each P p [] h = tt
keep-each P p (c ∷ cs) h = cases (p c) (λ hs. keep-each P p cs hs) h
  where
    cases :
        (b : Bool)
        → (All P (keep p cs) → All (λ c. p c ≡ true → P c) cs)
        → All P (elim b [ true ↦ c ∷ keep p cs | false ↦ keep p cs ])
        → (b ≡ true → P c) × All (λ c. p c ≡ true → P c) cs
    cases true rest (h, hs) = (λ _. h, rest hs)
    cases false rest hs = (λ e. absurd cc, rest hs)

module _ (uploads : List UploadSnapshot) where
  serve-IsFirst :
      (m : ℕ) (r : FairScheduler) (best : ℕ × Bytes)
      → IsQueuedAt uploads best.0 best.1 × (active uploads best.1 ≡ m)
      → All (λ d. Better r best d) (candidates_of uploads m)
      → IsFirst uploads (serve r best).0
  unfolding serve candidates_of
  serve-IsFirst m r (i, user) (known, same) better = (
    known.upload,
    known.found,
    take-All _ i uploads (λ j v less e.
        elim (Bool-cases (is_queued v.status && bytes_eq (user_of v) (user_of known.upload))) [
          | inr out ↦ out
          | inl waits ↦
              let (q, eq) =
                and_parts (is_queued v.status) (bytes_eq (user_of v) (user_of known.upload))
                  waits in
              let named : user_of v ≡ user =
                bytes_eq→eq (user_of v) (user_of known.upload) eq ∙ known.named in
              let le : i ≤ 0 + j =
                waiting_from-each (λ c. c.1 ≡ user → i ≤ c.0) 0 uploads not_before j v e q named in
              absurd (omega (arith, le, less))
        ]),
  )
    where
      not_before : All (λ c. c.1 ≡ user → i ≤ c.0) (waiting_from 0 uploads)
      not_before =
          All-imp _ _ (waiting_from 0 uploads)
            (λ c h e. same_user r (i, user) c (h (rw (e, same) (==_refl m))) (sym e))
            (keep-each (λ d. Better r (i, user) d) (λ c. active uploads c.1 == m)
              (waiting_from 0 uploads) better)

  module _ (s : FairScheduler) where
    choose-IsFirst :
        (m : ℕ)
        → minimum (λ c. active uploads c.1) (waiting_from 0 uploads) ≡ some m
        → (cs : List (ℕ × Bytes)) → candidates_of uploads m ≡ cs
        → IsFirst uploads (choose s cs).0
    unfolding choose candidates_of
    choose-IsFirst m e [] h =
        absurd (minimum-attained (λ c. active uploads c.1) (waiting_from 0 uploads) m e h)
    choose-IsFirst m e (c ∷ cs) h =
        let r = new_round s (c ∷ cs) in
        let (first, others) = subst (All (Candidate s uploads m)) h (candidates-All s uploads m) in
        serve-IsFirst m r (least r c cs) (least-All r (Candidate s uploads m) cs c first others)
          (subst (All (λ d. Better r (least r c cs) d)) (sym h) (least-Better r cs c))

    -- The uploads of one user are served first in, first out: no queued upload of the same user,
    -- in whatever case the name is written, stands before the one that gets the next slot.
    pub take_next-IsFirst : IsFirst uploads (take_next s uploads).0
    unfolding take_next take_for
    take_next-IsFirst =
        elim (Option-cases (minimum (λ c. active uploads c.1) (waiting_from 0 uploads))) [
          | inl e ↦ rw e tt
          | inr (m, e) ↦ rw e (choose-IsFirst m e (candidates_of uploads m) refl)
        ]
