-- ===== src/Uploads/Valid.antt =====
-- What the queue of uploads.rs always is: at most `MAX_UPLOAD_QUEUE` uploads are pending, no user's
-- request stands in it twice, and each upload has the tokens that its status needs.
use forever.Prelude.{
  ℕ, ◌≤◌, ◌≡◌, refl, ap, ◌∙◌, Bool, true, false, ◌&&◌, Option, none, some, List, [], ◌∷◌, All,
  arith, inl, inr, Bool-cases,
}
use forever.Bytes.{Bytes}
use forever.Uploads.Types.{UploadSnapshot, UploadStatus, eq_ignore_ascii_case}
use forever.Uploads.Hub.{count, is_pending, is_request, max_upload_queue}

-- The tokens by status: for the control connection, for the file's, and for the transfer.
abbrev pub tokens_fit : UploadStatus → Option ℕ → Option ℕ → Option ℕ → Bool
tokens_fit UploadStatus.queued none none none = true
tokens_fit UploadStatus.connecting (some c) f (some t) = true
tokens_fit UploadStatus.uploading (some c) f (some t) = true
tokens_fit UploadStatus.completed none none none = true
tokens_fit UploadStatus.failed none none none = true
tokens_fit UploadStatus.cancelled none none none = true
tokens_fit s c f t = false

abbrev pub Sound : UploadSnapshot → Type 0
Sound u =
    (u.transferred_bytes ≤ u.size_bytes)
    × (tokens_fit u.status u.connection_token u.file_connection_token u.transfer_token ≡ true)

-- Two uploads of the queue that are pending for one request.
abbrev pub clash : UploadSnapshot → UploadSnapshot → Bool
clash u v = is_pending u && is_request u.username u.remote_filename v

abbrev pub Distinct : List UploadSnapshot → Type 0
Distinct [] = Unit
Distinct (u ∷ us) = All (λ v. clash u v ≡ false) us × Distinct us

pub record Valid (us : List UploadSnapshot) : Type 0 where
  pub bounded : count is_pending us ≤ max_upload_queue
  pub distinct : Distinct us
  pub sound : All Sound us

-- What may stand in an upload's place: it is for the same request, and pending only if that was.
abbrev pub Replaces : UploadSnapshot → UploadSnapshot → Type 0
Replaces u v =
    (v.username ≡ u.username)
    × (v.remote_filename ≡ u.remote_filename)
    × (is_pending u ≡ false → is_pending v ≡ false)
    × (Sound u → Sound v)

pub data Shrinks : List UploadSnapshot → List UploadSnapshot → Type 0 where
  end : Shrinks [] []
  same :
      {u v : UploadSnapshot} {us vs : List UploadSnapshot}
      → Replaces u v
      → Shrinks us vs
      → Shrinks (u ∷ us) (v ∷ vs)
  skip : {u : UploadSnapshot} {us vs : List UploadSnapshot} → Shrinks us vs → Shrinks (u ∷ us) vs

pub stays : (u : UploadSnapshot) → Replaces u u
stays u = (refl, refl, λ h. h, λ h. h)

and_shrinks :
    (a b x a' b' : Bool)
    → (a ≡ false → a' ≡ false)
    → (b ≡ false → b' ≡ false)
    → (a && (b && x)) ≡ false
    → (a' && (b' && x)) ≡ false
and_shrinks a b x false b' p q h = refl
and_shrinks a b x true false p q h = refl
and_shrinks false b x true true p q h = let e : true ≡ false = p refl in absurd cc
and_shrinks true false x true true p q h = let e : true ≡ false = q refl in absurd cc
and_shrinks true true x true true p q h = h

abbrev for_same : Bytes → Bytes → Bytes → Bytes → Bool
for_same name file name' file' = eq_ignore_ascii_case name' name && eq_ignore_ascii_case file' file

clash-Replaces :
    (u v u' v' : UploadSnapshot)
    → Replaces u u'
    → Replaces v v'
    → clash u v ≡ false
    → clash u' v' ≡ false
clash-Replaces u v u' v' (n, f, p, s) (n', f', p', s') h =
    and_shrinks (is_pending u) (is_pending v)
      (for_same u'.username u'.remote_filename v'.username v'.remote_filename) (is_pending u')
      (is_pending v') p p'
      (ap (λ x. is_pending u && (is_pending v && x))
          (ap (λ a. for_same a u'.remote_filename v'.username v'.remote_filename) n
            ∙ ap (λ a. for_same u.username a v'.username v'.remote_filename) f
            ∙ ap (λ a. for_same u.username u.remote_filename a v'.remote_filename) n'
            ∙ ap (λ a. for_same u.username u.remote_filename v.username a) f')
        ∙ h)

clash-Shrinks :
    (w w' : UploadSnapshot) (us vs : List UploadSnapshot)
    → Replaces w w'
    → Shrinks us vs
    → All (λ v. clash w v ≡ false) us
    → All (λ v. clash w' v ≡ false) vs
clash-Shrinks w w' _ _ r end h = tt
clash-Shrinks w w' _ _ r (same {u} {v} {us} {vs} q t) (h, hs) =
    (clash-Replaces w u w' v r q h, clash-Shrinks w w' us vs r t hs)
clash-Shrinks w w' _ _ r (skip {u} {us} {vs} t) (h, hs) = clash-Shrinks w w' us vs r t hs

Distinct-Shrinks : (us vs : List UploadSnapshot) → Shrinks us vs → Distinct us → Distinct vs
Distinct-Shrinks _ _ end d = tt
Distinct-Shrinks _ _ (same {u} {v} {us} {vs} r t) (h, d) =
    (clash-Shrinks u v us vs r t h, Distinct-Shrinks us vs t d)
Distinct-Shrinks _ _ (skip {u} {us} {vs} t) (h, d) = Distinct-Shrinks us vs t d

sound-Shrinks : (us vs : List UploadSnapshot) → Shrinks us vs → All Sound us → All Sound vs
sound-Shrinks _ _ end d = tt
sound-Shrinks _ _ (same {u} {v} {us} {vs} r t) (h, d) = (r.3 h, sound-Shrinks us vs t d)
sound-Shrinks _ _ (skip {u} {us} {vs} t) (h, d) = sound-Shrinks us vs t d

count-Shrinks :
    (us vs : List UploadSnapshot) → Shrinks us vs → count is_pending vs ≤ count is_pending us
count-Shrinks _ _ end = omega arith
count-Shrinks _ _ (same {u} {v} {us} {vs} (n, f, p, s) t) =
    let rest : count is_pending vs ≤ count is_pending us = count-Shrinks us vs t in
    elim (Bool-cases (is_pending u)) [
      | inl e ↦ ground (arith, e)
      | inr e ↦ let e' : is_pending v ≡ false = p e in ground (arith, e, e')
    ]
count-Shrinks _ _ (skip {u} {us} {vs} t) = ground (arith, count-Shrinks us vs t)

pub Valid-Shrinks : (us vs : List UploadSnapshot) → Shrinks us vs → Valid us → Valid vs
Valid-Shrinks us vs t h = record {
  bounded = omega (arith, count-Shrinks us vs t, h.bounded);
  distinct = Distinct-Shrinks us vs t h.distinct;
  sound = sound-Shrinks us vs t h.sound;
}
