-- ===== src/Uploads/Activates.antt =====
-- `activate_next` of uploads.rs: the upload that gets a slot, and the queue after it.
use forever.Prelude.{
  ℕ, zero, suc, ◌+◌, ◌≤◌, ◌<◌, ◌≡◌, refl, ap, sym, subst, ◌∙◌, Bool, true, false, not, Option, none,
  some, List, [], ◌∷◌, map, update_at, get_elem?, arith, ◌==◌, ◌%◌, ◌^◌, if◌then◌else◌,
}
use forever.Bytes.{Bytes}
use forever.Uploads.Types.{
  UploadSnapshot, UploadStatus, UploadTicket, is_queued, occupies_slot, finished,
}
use forever.UploadPolicy.Positions.{strip, refresh_positions-strip, count-strip}
use forever.UploadPolicy.Waiting.{some_inj}
use forever.Uploads.Hub.{
  UploadHub, Saving, count, is_active, is_pending, refresh_queue_positions, persist,
  take_transfer_token, ticket_from,
}
use forever.Uploads.Operations.{activated, after_activation, activate}
use forever.Uploads.Valid.{Valid, Replaces, Valid-Shrinks}
use forever.Uploads.Shrinks.{update_at-Shrinks, Valid-strip}
use forever.Uploads.Preserved.{IsValid, settled-Valid}
use forever.Uploads.Joins.{put-strip}

abbrev pub Activation : Type 0
Activation = Option UploadTicket × UploadHub

take_transfer_token-uploads :
    (hub : UploadHub)
    → ((take_transfer_token hub).1.uploads ≡ hub.uploads)
      × ((take_transfer_token hub).1.scheduler ≡ hub.scheduler)
unfolding take_transfer_token
take_transfer_token-uploads hub = go (hub.next_transfer_token == 0)
  where
    answer : Bool → ℕ × UploadHub
    answer b = if b then (1, record hub { next_transfer_token = 2 }) else (
      hub.next_transfer_token,
      record hub { next_transfer_token = (hub.next_transfer_token + 1) % 2 ^ 32 },
    )

    go :
        (b : Bool) → ((answer b).1.uploads ≡ hub.uploads) × ((answer b).1.scheduler ≡ hub.scheduler)
    go true = (refl, refl)
    go false = (refl, refl)

queued_pending :
    (s : UploadStatus) → is_queued s ≡ true → (not (finished s) ≡ true) × (occupies_slot s ≡ false)
queued_pending UploadStatus.queued e = (refl, refl)
queued_pending s e = absurd cc

count-put-more :
    (us : List UploadSnapshot) (i : ℕ) (u x : UploadSnapshot)
    → get_elem? us i ≡ some u
    → is_active u ≡ false
    → is_active x ≡ true
    → count is_active (update_at us i (λ v. x)) ≡ count is_active us + 1
count-put-more [] i u x e a b = absurd cc
count-put-more (v ∷ us) zero u x e a b =
    let c : is_active v ≡ false = ap is_active (some_inj v u e) ∙ a in ground (arith, b, c)
count-put-more (v ∷ us) (suc i) u x e a b = ground (arith, count-put-more us i u x e a b)

-- What `activate_next` answers: without a ticket the uploads and the round are what they were; with
-- one, one more upload is active, and not more than the slots.
abbrev pub Activated : UploadHub → ℕ → Activation → Type 0
Activated hub slots (none, hub') =
    (map strip hub'.uploads ≡ map strip hub.uploads)
    × (hub'.scheduler.served ≡ hub.scheduler.served)
Activated hub slots (some ticket, hub') =
    (count is_active hub'.uploads ≡ count is_active hub.uploads + 1)
    × (count is_active hub'.uploads ≤ slots)

-- The queue with an upload activated; `hub` has taken the transfer token.
module _ (hub : UploadHub) (i : ℕ) (u : UploadSnapshot) (found : get_elem? hub.uploads i ≡ some u)
    (waits : is_queued u.status ≡ true) (connection_token token now : ℕ) where
  abbrev upload : UploadSnapshot
  upload = activated connection_token token now u

  abbrev begun : Saving → UploadHub
  begun saving =
      persist
        (refresh_queue_positions (record hub { uploads = update_at hub.uploads i (λ v. upload) }))
        saving

  begun-strip :
      (saving : Saving)
      → map strip (begun saving).uploads ≡ map strip (update_at hub.uploads i (λ v. upload))
  unfolding persist refresh_queue_positions
  begun-strip saving = refresh_positions-strip hub.scheduler (update_at hub.uploads i (λ v. upload))

  activated-Replaces : Replaces u upload
  unfolding activated
  activated-Replaces =
      let p : is_pending u ≡ true = (queued_pending u.status waits).0 in
      (refl, refl, λ h. absurd cc, λ h. (h.0, refl))

  begun-Valid : (saving : Saving) → IsValid hub → IsValid (begun saving)
  begun-Valid saving h =
      settled-Valid (record hub { uploads = update_at hub.uploads i (λ v. upload) }) saving
        (Valid-Shrinks hub.uploads (update_at hub.uploads i (λ v. upload))
          (update_at-Shrinks hub.uploads i (λ v. upload) u found activated-Replaces) h)

  undone-strip :
      (saved : UploadHub) (turn : List Bytes) (ticket : UploadTicket) (e : Bytes)
      → map strip saved.uploads ≡ map strip (update_at hub.uploads i (λ v. upload))
      → map strip (after_activation saved i u turn ticket (some e)).1.uploads
        ≡ map strip hub.uploads
  unfolding after_activation refresh_queue_positions
  undone-strip saved turn ticket e h =
      refresh_positions-strip (record saved.scheduler { served = turn })
        (update_at saved.uploads i (λ v. u))
      ∙ put-strip hub.uploads saved.uploads i upload u found h

  ended-Valid :
      (turn : List Bytes) (ticket : UploadTicket) (saving : Saving)
      → IsValid hub
      → IsValid (after_activation (begun saving) i u turn ticket saving).1
  unfolding after_activation
  ended-Valid turn ticket none h = begun-Valid none h
  ended-Valid turn ticket (some e) h =
      Valid-strip hub.uploads (after_activation (begun (some e)) i u turn ticket (some e)).1.uploads
        (sym (undone-strip (begun (some e)) turn ticket e (begun-strip (some e)))) h

  ended-Activated :
      (slots : ℕ) (ticket : UploadTicket) (saving : Saving)
      → count is_active hub.uploads < slots
      → (before : UploadHub) → hub.uploads ≡ before.uploads
      → Activated before slots
          (after_activation (begun saving) i u before.scheduler.served ticket saving)
  unfolding after_activation activated refresh_queue_positions
  ended-Activated slots ticket none room before e =
      let more : count is_active (begun none).uploads ≡ count is_active hub.uploads + 1 =
        count-strip (begun none).uploads (update_at hub.uploads i (λ v. upload)) (begun-strip none)
          is_active (λ v. refl)
        ∙ count-put-more hub.uploads i u upload found (queued_pending u.status waits).1 refl in
      (more ∙ ap (λ l. count is_active l + 1) e, omega (arith, more))
  ended-Activated slots ticket (some x) room before e = (
    undone-strip (begun (some x)) before.scheduler.served ticket x (begun-strip (some x))
        ∙ ap (map strip) e,
    refl,
  )

-- The upload that the policy chooses is activated.
module _ (hub : UploadHub) (connection_token now : ℕ) (saving : Saving) where
  pub activate-Valid :
      (turn : List Bytes) (i : ℕ) (u : UploadSnapshot)
      → get_elem? hub.uploads i ≡ some u
      → is_queued u.status ≡ true
      → IsValid hub
      → IsValid (activate hub turn i u connection_token now saving).1
  unfolding activate
  activate-Valid turn i u f w h =
      let e = (take_transfer_token-uploads hub).0 in
      ended-Valid (take_transfer_token hub).1 i u (ap (λ l. get_elem? l i) e ∙ f) w connection_token
        (take_transfer_token hub).0 now turn
        (ticket_from (activated connection_token (take_transfer_token hub).0 now u) connection_token
          (take_transfer_token hub).0)
        saving (subst Valid (sym e) h)

  pub activate-Activated :
      (slots : ℕ) (before : UploadHub) (i : ℕ) (u : UploadSnapshot)
      → get_elem? hub.uploads i ≡ some u
      → is_queued u.status ≡ true
      → count is_active hub.uploads < slots
      → hub.uploads ≡ before.uploads
      → Activated before slots
          (activate hub before.scheduler.served i u connection_token now saving)
  unfolding activate
  activate-Activated slots before i u f w room same =
      let e = (take_transfer_token-uploads hub).0 in
      ended-Activated (take_transfer_token hub).1 i u (ap (λ l. get_elem? l i) e ∙ f) w
        connection_token (take_transfer_token hub).0 now slots
        (ticket_from (activated connection_token (take_transfer_token hub).0 now u) connection_token
          (take_transfer_token hub).0)
        saving (subst (λ l. count is_active l < slots) (sym e) room) before (e ∙ same)
