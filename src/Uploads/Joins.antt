-- ===== src/Uploads/Joins.antt =====
-- The operations of uploads.rs that add an upload, or bring one back, keep the queue valid.
use forever.Prelude.{
  ℕ, zero, suc, ◌+◌, ◌%◌, ◌^◌, ◌<◌, ◌≡◌, refl, ap, sym, ◌∙◌, Bool, true, false, ◌||◌, Option, none,
  some, List, [], ◌∷◌, ◌++◌, map, length, any, update_at, get_elem?, is_empty, arith, leb, ltb,
  if◌then◌else◌,
}
use forever.Bytes.{Bytes}
use forever.Text.Trim.{trim}
use forever.Uploads.Types.{
  UploadSnapshot, UploadError, UploadQueueSnapshot, IndexedFile, Answer, ok, err,
}
use forever.UploadPolicy.Positions.{strip, refresh_positions-strip}
use forever.UploadPolicy.Waiting.{some_inj}
use forever.Uploads.Hub.{
  UploadHub, Saving, count, is_pending, is_request, max_upload_queue, snapshot, check_user_limits,
  refresh_queue_positions, persist, upload_id,
}
use forever.Uploads.Operations.{new_upload, drop_last, after_save, push_upload, refusal, enqueue}
use forever.Uploads.Shrinks.{Valid-strip}
use forever.Uploads.Grows.{Valid-append}
use forever.Uploads.Preserved.{IsValid, settled-Valid}

-- A queue that takes a new upload has room.
pub refusal_room :
    (hub : UploadHub) (username : Bytes) (size : ℕ)
    → refusal hub username size ≡ none
    → count is_pending hub.uploads < max_upload_queue
unfolding refusal
refusal_room hub username size h = go (leb max_upload_queue (count is_pending hub.uploads)) refl h
  where
    go :
        (b : Bool)
        → leb max_upload_queue (count is_pending hub.uploads) ≡ b
        → (if b
            then some UploadError.queue_full
            else check_user_limits hub.uploads username size hub.scheduler.policy)
          ≡ none
        → count is_pending hub.uploads < max_upload_queue
    go true e h = absurd cc
    go false e h = ground arith

-- `pop` of the list that `push` made.
map-drop_last : (us : List UploadSnapshot) → map strip (drop_last us) ≡ drop_last (map strip us)
map-drop_last [] = refl
map-drop_last (u ∷ []) = refl
map-drop_last (u ∷ (v ∷ us)) = ap (λ l. strip u ∷ l) (map-drop_last (v ∷ us))

drop_last-append : (us : List UploadSnapshot) (x : UploadSnapshot) → drop_last (us ++ x ∷ []) ≡ us
drop_last-append [] x = refl
drop_last-append (u ∷ []) x = refl
drop_last-append (u ∷ (v ∷ us)) x = ap (λ l. u ∷ l) (drop_last-append (v ∷ us) x)

drop_last-strip :
    (us vs : List UploadSnapshot) (x : UploadSnapshot)
    → map strip vs ≡ map strip (us ++ x ∷ [])
    → map strip (drop_last vs) ≡ map strip us
drop_last-strip us vs x h =
    map-drop_last vs
    ∙ ap drop_last h
    ∙ sym (map-drop_last (us ++ x ∷ []))
    ∙ ap (map strip) (drop_last-append us x)

-- An upload that is put back.
map-put :
    (us : List UploadSnapshot) (i : ℕ) (w : UploadSnapshot)
    → map strip (update_at us i (λ u. w)) ≡ update_at (map strip us) i (λ u. strip w)
map-put [] i w = refl
map-put (u ∷ us) zero w = refl
map-put (u ∷ us) (suc i) w = ap (λ l. strip u ∷ l) (map-put us i w)

put-back :
    (us : List UploadSnapshot) (i : ℕ) (x w : UploadSnapshot)
    → get_elem? us i ≡ some w
    → update_at (update_at us i (λ u. x)) i (λ u. w) ≡ us
put-back [] i x w e = refl
put-back (u ∷ us) zero x w e = ap (λ v. v ∷ us) (sym (some_inj u w e))
put-back (u ∷ us) (suc i) x w e = ap (λ l. u ∷ l) (put-back us i x w e)

pub put-strip :
    (us vs : List UploadSnapshot) (i : ℕ) (x w : UploadSnapshot)
    → get_elem? us i ≡ some w
    → map strip vs ≡ map strip (update_at us i (λ u. x))
    → map strip (update_at vs i (λ u. w)) ≡ map strip us
put-strip us vs i x w e h =
    map-put vs i w
    ∙ ap (λ l. update_at l i (λ u. strip w)) h
    ∙ sym (map-put (update_at us i (λ u. x)) i w)
    ∙ ap (map strip) (put-back us i x w e)

-- A new upload whose queue could not be saved is taken back.
after_save-strip :
    (hub : UploadHub) (us : List UploadSnapshot) (x : UploadSnapshot) (e : Bytes)
    → map strip hub.uploads ≡ map strip (us ++ x ∷ [])
    → map strip (after_save hub (some e)).1.uploads ≡ map strip us
unfolding after_save refresh_queue_positions
after_save-strip hub us x e h =
    refresh_positions-strip hub.scheduler (drop_last hub.uploads)
    ∙ drop_last-strip us hub.uploads x h

module _ (hub : UploadHub) (username : Bytes) (file : IndexedFile) (now : ℕ) where
  abbrev new : UploadSnapshot
  new = new_upload (upload_id now hub.next_id) username file now

  push_upload-strip :
      (e : Bytes)
      → map strip (push_upload hub username file now (some e)).1.uploads ≡ map strip hub.uploads
  unfolding push_upload persist refresh_queue_positions
  push_upload-strip e =
      let hub' = record hub {
        uploads = hub.uploads ++ new ∷ [];
        next_id = (hub.next_id + 1) % 2 ^ 64;
      } in
      after_save-strip (persist (refresh_queue_positions hub') (some e)) hub.uploads new e
        (refresh_positions-strip hub.scheduler (hub.uploads ++ new ∷ []))

  push_upload-Valid :
      (saving : Saving)
      → IsValid hub
      → count is_pending hub.uploads < max_upload_queue
      → any (is_request username file.remote_filename) hub.uploads ≡ false
      → IsValid (push_upload hub username file now saving).1
  unfolding push_upload after_save new_upload
  push_upload-Valid none h c n =
      settled-Valid
        (record hub { uploads = hub.uploads ++ new ∷ []; next_id = (hub.next_id + 1) % 2 ^ 64 })
        none (Valid-append hub.uploads new n (omega arith, refl) c h)
  push_upload-Valid (some e) h c n =
      Valid-strip hub.uploads (push_upload hub username file now (some e)).1.uploads
        (sym (push_upload-strip e)) h

  abbrev pub Result : Type 0
  Result = Answer UploadQueueSnapshot × UploadHub

  -- What holds of every branch of `enqueue`.
  enqueue_branches {κ} :
      (P : Result → Type κ) (saving : Saving)
      → ((e : UploadError) → P (err e, hub))
      → P (ok (snapshot hub), hub)
      → (any (is_request username file.remote_filename) hub.uploads ≡ false
          → refusal hub username file.size_bytes ≡ none
          → P (push_upload hub username file now saving))
      → P (enqueue hub username file now saving)
  unfolding enqueue
  enqueue_branches P saving refused found pushed =
      go (is_empty (trim username) || ltb 100 (length username))
        (is_empty file.remote_filename || ltb 32768 (length file.remote_filename))
        (any (is_request username file.remote_filename) hub.uploads)
        (refusal hub username file.size_bytes) refl refl
    where
      last : Option UploadError → Result
      last o = elim o [ some e ↦ (err e, hub) | none ↦ push_upload hub username file now saving ]

      go :
          (a b c : Bool) (o : Option UploadError)
          → any (is_request username file.remote_filename) hub.uploads ≡ c
          → refusal hub username file.size_bytes ≡ o
          → P (
              if a
              then (err UploadError.invalid_peer, hub)
              else if b
              then (err UploadError.changed_file, hub)
              else if c
              then (ok (snapshot hub), hub)
              else last o)
      go true b c o d e = refused UploadError.invalid_peer
      go false true c o d e = refused UploadError.changed_file
      go false false true o d e = found
      go false false false (some r) d e = refused r
      go false false false none d e = pushed d e

  pub enqueue-Valid :
      (saving : Saving) → IsValid hub → IsValid (enqueue hub username file now saving).1
  enqueue-Valid saving h =
      enqueue_branches (λ r. IsValid r.1) saving (λ e. h) h
        (λ n o. push_upload-Valid saving h (refusal_room hub username file.size_bytes o) n)

  abbrev pub IsUnchanged : Result → Type 0
  IsUnchanged (ok s, hub') = Unit
  IsUnchanged (err e, hub') = map strip hub'.uploads ≡ map strip hub.uploads

  push_upload-IsUnchanged :
      (saving : Saving) → IsUnchanged (push_upload hub username file now saving)
  unfolding push_upload after_save
  push_upload-IsUnchanged none = tt
  push_upload-IsUnchanged (some e) = push_upload-strip e

  -- If `enqueue` returns an error, of whatever kind, a failed save included, the uploads are what
  -- they were but for their positions.
  pub enqueue-IsUnchanged : (saving : Saving) → IsUnchanged (enqueue hub username file now saving)
  enqueue-IsUnchanged saving =
      enqueue_branches IsUnchanged saving (λ e. refl) tt (λ n o. push_upload-IsUnchanged saving)
