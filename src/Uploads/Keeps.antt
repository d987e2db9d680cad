-- ===== src/Uploads/Keeps.antt =====
-- The operations of uploads.rs that add no upload keep the queue valid.
use forever.Prelude.{
  ℕ, ◌≤◌, ◌≡◌, refl, ap, Bool, true, false, not, ◌&&◌, ◌||◌, Option, none, some, min, arith, ◌==◌,
  ◌-◌, if◌then◌else◌, inl, inr,
}
use forever.Bytes.{Bytes}
use forever.Uploads.Types.{
  UploadSnapshot, UploadStatus, UploadTicket, IndexedFile, is_connecting, is_uploading,
  is_completed, finished, occupies_slot, UploadError, Answer, ok, err,
}
use forever.Uploads.Hub.{ticket_from, is_active, is_pending, reset_pending}
use forever.Uploads.Operations.{has_token}
use forever.Uploads.Transfers.{Metadata, started, check_metadata, open_file, progressed, eta, ended}
use forever.Uploads.Queue.{requeued}
use forever.Uploads.Valid.{Replaces, tokens_fit, stays}

pub tokens_connecting :
    (s : UploadStatus) (c f t : Option ℕ) (f' : Option ℕ)
    → is_connecting s ≡ true
    → tokens_fit s c f t ≡ true
    → tokens_fit s c f' t ≡ true
tokens_connecting UploadStatus.connecting (some c) f (some t) f' e h = refl
tokens_connecting s c f t f' e h = absurd cc

tokens_started :
    (s : UploadStatus) (c f t : Option ℕ)
    → is_connecting s ≡ true
    → tokens_fit s c f t ≡ true
    → tokens_fit UploadStatus.uploading c f t ≡ true
tokens_started UploadStatus.connecting (some c) f (some t) e h = refl
tokens_started s c f t e h = absurd cc

tokens_ended : (s : UploadStatus) → finished s ≡ true → tokens_fit s none none none ≡ true
tokens_ended UploadStatus.completed e = refl
tokens_ended UploadStatus.failed e = refl
tokens_ended UploadStatus.cancelled e = refl
tokens_ended s e = absurd cc

pub connecting_pending : (s : UploadStatus) → is_connecting s ≡ true → finished s ≡ false
connecting_pending UploadStatus.connecting e = refl
connecting_pending s e = absurd cc

active_pending : (u : UploadSnapshot) → is_active u ≡ true → is_pending u ≡ true
active_pending u = go u.status
  where
    go : (s : UploadStatus) → occupies_slot s ≡ true → not (finished s) ≡ true
    go UploadStatus.connecting e = refl
    go UploadStatus.uploading e = refl
    go s e = absurd cc

module _ (u : UploadSnapshot) where
  started-Replaces :
      (now : ℕ) (found : UploadSnapshot)
      → is_connecting u.status ≡ true
      → Replaces u (started found now u).1
  unfolding started
  started-Replaces now found e = go u.transfer_token
    where
      u' : UploadSnapshot
      u' = record u {
        status = UploadStatus.uploading;
        speed_bytes_per_second = 0;
        eta_seconds = none;
        updated_at_ms = now;
      }

      pending_not : is_pending u ≡ false → ⊥
      pending_not h = let c : finished u.status ≡ false = connecting_pending u.status e in cc

      fits : Replaces u u'
      fits = (
        refl,
        refl,
        λ h. absurd (pending_not h),
        λ h. (
          h.0,
          tokens_started u.status u.connection_token u.file_connection_token u.transfer_token e h.1,
        ),
      )

      answer : Option ℕ → Answer UploadTicket × UploadSnapshot
      answer o = elim o [
        | none ↦ (err UploadError.not_found, u')
        | some token ↦
            (ok (ticket_from u' (elim u.file_connection_token [ none ↦ 0 | some t ↦ t ]) token), u')
      ]

      go : (o : Option ℕ) → Replaces u (answer o).1
      go none = fits
      go (some t) = fits

  check_metadata-Replaces :
      (m : Metadata) (now : ℕ)
      → is_connecting u.status ≡ true
      → Replaces u (check_metadata m now u).1
  unfolding check_metadata
  check_metadata-Replaces (inl x) now e = stays u
  check_metadata-Replaces (inr (is_file, size)) now e =
      elim (not is_file || not (size == u.size_bytes))
        as (λ b. Replaces u (if b then (err UploadError.changed_file, u) else started u now u).1) [
          | true ↦ stays u
          | false ↦ started-Replaces now u e
        ]

  pub progressed-Replaces :
      (token transferred speed now : ℕ) → Replaces u (progressed token transferred speed now u)
  unfolding progressed
  progressed-Replaces token transferred speed now =
      elim (is_uploading u.status && has_token u.transfer_token token)
        as (λ b. Replaces u (
          if b
          then record u {
            transferred_bytes = min transferred u.size_bytes;
            speed_bytes_per_second = speed;
            eta_seconds = eta (u.size_bytes - min transferred u.size_bytes) speed;
            updated_at_ms = now;
          }
          else u)) [ true ↦ (refl, refl, λ h. h, λ h. (omega arith, h.1)) | false ↦ stays u ]

  pub ended-Replaces :
      (s : UploadStatus) (error : Option Bytes) (now : ℕ)
      → finished s ≡ true
      → Replaces u (ended s error now u)
  unfolding ended
  ended-Replaces s error now e =
      (refl, refl, λ h. ap not e, λ h. (within (is_completed s) h.0, tokens_ended s e))
    where
      within :
          (b : Bool)
          → u.transferred_bytes ≤ u.size_bytes
          → (if b then u.size_bytes else u.transferred_bytes) ≤ u.size_bytes
      within true h = omega arith
      within false h = h

  pub requeued-Replaces : Replaces u (requeued u)
  unfolding requeued reset_pending
  requeued-Replaces = go (is_active u) (active_pending u)
    where
      go :
          (b : Bool)
          → (b ≡ true → is_pending u ≡ true)
          → Replaces u (if b then reset_pending u else u)
      go true h =
          let p : is_pending u ≡ true = h refl in
          (refl, refl, λ e. absurd cc, λ e. (omega arith, refl))
      go false h = stays u

pub open_file-Replaces :
    (token : ℕ) (file : IndexedFile) (metadata : Bytes → Metadata) (now : ℕ) (u : UploadSnapshot)
    → is_connecting u.status ≡ true
    → Replaces u (open_file token file metadata now u).1
unfolding open_file
open_file-Replaces token file metadata now u e =
    elim (not (has_token u.transfer_token token) || not (file.size_bytes == u.size_bytes))
      as (λ b.
        Replaces u
          (if b
            then (err UploadError.changed_file, u)
            else check_metadata (metadata file.local_path) now
                (record u { local_path = file.local_path })).1) [
                  | true ↦ stays u
                  | false ↦
                      check_metadata-Replaces (record u { local_path = file.local_path })
                        (metadata file.local_path) now e
                ]
