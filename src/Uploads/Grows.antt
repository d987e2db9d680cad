-- ===== src/Uploads/Grows.antt =====
-- When an upload may join the queue of uploads.rs, or go back to it.
use forever.Prelude.{
  ℕ, zero, suc, ◌+◌, ◌≤◌, ◌<◌, ◌≡◌, refl, ap, sym, subst, ◌∙◌, Bool, true, false, ◌&&◌, some, List,
  [], ◌∷◌, ◌++◌, All, All-imp, All-append, any, update_at, get_elem?, arith, or_false, ◌==◌,
}
use forever.Bytes.{Bytes, bytes_eq}
use forever.Text.{to_ascii_lowercase}
use forever.Uploads.Types.{UploadSnapshot, eq_ignore_ascii_case}
use forever.UploadPolicy.Waiting.{some_inj}
use forever.Uploads.Hub.{count, is_pending, is_request, max_upload_queue}
use forever.Uploads.Valid.{Valid, Sound, Distinct, clash}

pub any-false {ℓ} :
    {A : Type ℓ} (p : A → Bool) (xs : List A) → any p xs ≡ false → All (λ x. p x ≡ false) xs
any-false p [] h = tt
any-false p (x ∷ xs) h =
    let e : (p x ≡ false) × (any p xs ≡ false) = or_false (p x) (any p xs) h in
    (e.0, any-false p xs e.1)

==_sym : (a b : ℕ) → (a == b) ≡ (b == a)
==_sym a b = ground arith

pub bytes_eq_sym : (a b : Bytes) → bytes_eq a b ≡ bytes_eq b a
unfolding bytes_eq
bytes_eq_sym [] [] = refl
bytes_eq_sym [] (y ∷ ys) = refl
bytes_eq_sym (x ∷ xs) [] = refl
bytes_eq_sym (x ∷ xs) (y ∷ ys) =
    ap (λ b. b && bytes_eq xs ys) (==_sym x y) ∙ ap (λ b. (y == x) && b) (bytes_eq_sym xs ys)

pub and_false : (a : Bool) → (a && false) ≡ false
and_false true = refl
and_false false = refl

swap_false : (a b c : Bool) → (a && c) ≡ false → (a && (b && c)) ≡ false
swap_false true true c h = h
swap_false true false c h = refl
swap_false false b c h = refl

-- An upload of another request clashes with none.
clash_from :
    (u v : UploadSnapshot) → is_request u.username u.remote_filename v ≡ false → clash u v ≡ false
clash_from u v h = ap (λ b. is_pending u && b) h ∙ and_false (is_pending u)

clash_to :
    (u v : UploadSnapshot) → is_request u.username u.remote_filename v ≡ false → clash v u ≡ false
clash_to u v h =
    swap_false (is_pending v) (is_pending u)
      (eq_ignore_ascii_case u.username v.username
        && eq_ignore_ascii_case u.remote_filename v.remote_filename)
      (ap (λ b. is_pending v && (b && eq_ignore_ascii_case u.remote_filename v.remote_filename))
          (bytes_eq_sym (to_ascii_lowercase u.username) (to_ascii_lowercase v.username))
        ∙ ap (λ b. is_pending v && (eq_ignore_ascii_case v.username u.username && b))
            (bytes_eq_sym (to_ascii_lowercase u.remote_filename)
              (to_ascii_lowercase v.remote_filename))
        ∙ h)

pub All-put {ℓ κ} :
    {A : Type ℓ} (P : A → Type κ) (xs : List A) (i : ℕ) (f : A → A) (x : A)
    → get_elem? xs i ≡ some x
    → P (f x)
    → All P xs
    → All P (update_at xs i f)
All-put P [] i f x e p h = h
All-put P (y ∷ ys) zero f x e p (h, hs) = (subst (λ z. P (f z)) (sym (some_inj y x e)) p, hs)
All-put P (y ∷ ys) (suc i) f x e p (h, hs) = (h, All-put P ys i f x e p hs)

Distinct-put :
    (us : List UploadSnapshot) (i : ℕ) (f : UploadSnapshot → UploadSnapshot) (u : UploadSnapshot)
    → get_elem? us i ≡ some u
    → All (λ v. is_request (f u).username (f u).remote_filename v ≡ false) us
    → Distinct us
    → Distinct (update_at us i f)
Distinct-put [] i f u e n d = tt
Distinct-put (v ∷ us) zero f u e (m, n) (h, d) =
    let same : f u ≡ f v = ap f (sym (some_inj v u e)) in
    (
      All-imp (λ w. is_request (f u).username (f u).remote_filename w ≡ false)
          (λ w. clash (f v) w ≡ false) us
          (λ w r. subst (λ x. clash x w ≡ false) same (clash_from (f u) w r)) n,
      d,
    )
Distinct-put (v ∷ us) (suc i) f u e (m, n) (h, d) = (
  All-put (λ w. clash v w ≡ false) us i f u e (clash_to (f u) v m) h,
  Distinct-put us i f u e n d,
)

count-put :
    (p : UploadSnapshot → Bool) (us : List UploadSnapshot) (i : ℕ)
    (f : UploadSnapshot → UploadSnapshot)
    → count p (update_at us i f) ≤ count p us + 1
count-put p [] i f = omega arith
count-put p (u ∷ us) zero f = ground arith
count-put p (u ∷ us) (suc i) f = ground (arith, count-put p us i f)

pub Valid-put :
    (us : List UploadSnapshot) (i : ℕ) (f : UploadSnapshot → UploadSnapshot) (u : UploadSnapshot)
    → get_elem? us i ≡ some u
    → any (is_request (f u).username (f u).remote_filename) us ≡ false
    → Sound (f u)
    → count is_pending us < max_upload_queue
    → Valid us
    → Valid (update_at us i f)
Valid-put us i f u e n s c h = record {
  bounded = omega (arith, count-put is_pending us i f);
  distinct =
      Distinct-put us i f u e (any-false (is_request (f u).username (f u).remote_filename) us n)
        h.distinct;
  sound = All-put Sound us i f u e s h.sound;
}

Distinct-append :
    (us : List UploadSnapshot) (u : UploadSnapshot)
    → All (λ v. is_request u.username u.remote_filename v ≡ false) us
    → Distinct us
    → Distinct (us ++ u ∷ [])
Distinct-append [] u n d = (tt, tt)
Distinct-append (v ∷ us) u (m, n) (h, d) = (
  All-append (λ w. clash v w ≡ false) us (u ∷ []) h (clash_to u v m, tt),
  Distinct-append us u n d,
)

count-append :
    (p : UploadSnapshot → Bool) (us : List UploadSnapshot) (u : UploadSnapshot)
    → count p (us ++ u ∷ []) ≤ count p us + 1
count-append p [] u = ground arith
count-append p (v ∷ us) u = ground (arith, count-append p us u)

pub Valid-append :
    (us : List UploadSnapshot) (u : UploadSnapshot)
    → any (is_request u.username u.remote_filename) us ≡ false
    → Sound u
    → count is_pending us < max_upload_queue
    → Valid us
    → Valid (us ++ u ∷ [])
Valid-append us u n s c h = record {
  bounded = omega (arith, count-append is_pending us u);
  distinct =
      Distinct-append us u (any-false (is_request u.username u.remote_filename) us n) h.distinct;
  sound = All-append Sound us (u ∷ []) h.sound (s, tt);
}
