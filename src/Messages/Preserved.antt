-- ===== src/Messages/Preserved.antt =====
-- Every operation of messages.rs keeps its store valid.
use forever.Prelude.{
  ℕ, suc, ◌-◌, ◌*◌, ◌^◌, min, ◌≡◌, refl, ap, Bool, true, false, not, ◌&&◌, Option, none, some, List,
  [], ◌∷◌, length, keep, any, find, update_first, ◌==◌, if◌then◌else◌, arith, length-keep-le,
  All-keep,
}
use forever.Bytes.{Bytes, bytes_eq}
use forever.Messages.{
  MessageDelivery, is_outgoing, is_failed, PrivateMessage, PrivateConversation, MessagesSnapshot,
  Store, MessagesError, Answer, ok, err, Saving, snapshot_from, valid_username, valid_message,
  clean_error, is_with, change_conversation, sort_and_trim, touch_conversation, find_message,
  change_message,
}
use forever.Messages.Operations.{
  Outcome, answer_with, persisted, has_server_id, server_message, received, record_valid,
  record_incoming, message_count, local_id, own_message, written, Queued, queue_valid,
  queue_outgoing, set_delivery, retry, waits, failed_all, fail_queued, open_conversation, read_all,
  mark_read, unread_again, mark_unread, cleared, clear_conversation, remove_conversation,
}
use forever.Messages.Valid.{
  Good, Valid, Ready, sort_and_trim-Valid, update_first-Ready, change_conversation-Ready,
  touch_conversation-Valid, Ready-Valid, keep-Distinct,
}
use forever.Messages.Kept.{
  received-Good, written-Good, received-username, written-username, length-failed_all,
  change_message-Ready, failed_all-Ready, read_all-Good, unread_again-Good, cleared-Good,
}

answer_with-Valid {ℓ} :
    {A : Type ℓ} (done : MessagesSnapshot → A) (failed : MessagesError → A) (store : Store)
    (now : ℕ) (saving : Saving)
    → Valid store
    → Valid (answer_with done failed store now saving).1
unfolding answer_with
answer_with-Valid done failed store now none h = h
answer_with-Valid done failed store now (some e) h = h

length-update_first :
    (p : PrivateConversation → Bool) (f : PrivateConversation → PrivateConversation) (cs : Store)
    → length (update_first p f cs) ≡ length cs
length-update_first p f [] = refl
length-update_first p f (c ∷ cs) =
    elim (p c)
      as (λ b.
        length (elim b [ true ↦ f c ∷ cs | false ↦ c ∷ update_first p f cs ]) ≡ length (c ∷ cs)) [
          | true ↦ refl
          | false ↦ ap suc (length-update_first p f cs)
        ]

module _ (store : Store) (valid : Valid store) (now : ℕ) (saving : Saving) where
  ready : Ready store
  ready = Ready-Valid store valid

  -- A conversation that is changed in its place.
  changed_at :
      (p : PrivateConversation → Bool) (f : PrivateConversation → PrivateConversation)
      → ((c : PrivateConversation) → (f c).username ≡ c.username)
      → ((c : PrivateConversation) → Good c → Good (f c))
      → Valid (persisted (update_first p f store) now saving).1
  changed_at p f n g =
      let r = update_first-Ready p f store n g ready in
      answer_with-Valid ok err (update_first p f store) now saving (record {
        few = omega (arith, length-update_first p f store, valid.few);
        good = r.good;
        distinct = r.distinct;
      })

  pub record_incoming-Valid :
      (server_id seconds : ℕ) (username body : Bytes)
      → Valid (record_incoming store server_id seconds username body now saving).1
  unfolding record_incoming record_valid
  record_incoming-Valid server_id seconds username body = on_name (valid_username username)
    where
      at : ℕ
      at = min (seconds * 1_000) (2 ^ 64 - 1)

      pushed : Bytes → Bytes → Store
      pushed name text = sort_and_trim (
          change_conversation store name now (received (server_message server_id at name text) now))

      after : Bytes → Bytes → Bool → Outcome
      after name text b =
          if b
          then (ok (snapshot_from store now), store)
          else persisted (pushed name text) now saving

      with_text : Bytes → Option Bytes → Outcome
      with_text name o = elim o [
        | none ↦ (err MessagesError.invalid_message, store)
        | some text ↦ record_valid store server_id seconds name text now saving
      ]

      with_name : Option Bytes → Outcome
      with_name o = elim o [
        | none ↦ (err MessagesError.invalid_username, store)
        | some name ↦ with_text name (valid_message body)
      ]

      either : (name text : Bytes) (b : Bool) → Valid (after name text b).1
      either name text true = valid
      either name text false = answer_with-Valid ok err (pushed name text) now saving (
          sort_and_trim-Valid
            (change_conversation store name now
              (received (server_message server_id at name text) now))
            (change_conversation-Ready store name now
              (received (server_message server_id at name text) now)
              (λ c. received-username (server_message server_id at name text) now c)
              (λ c g. received-Good server_id at now name text c g) ready))

      on_text : (name : Bytes) (o : Option Bytes) → Valid (with_text name o).1
      on_text name none = valid
      on_text name (some text) =
          either name text (any (λ c. any (has_server_id server_id) c.messages) store)

      on_name : (o : Option Bytes) → Valid (with_name o).1
      on_name none = valid
      on_name (some name) = on_text name (valid_message body)

  pub queue_outgoing-Valid :
      (username body : Bytes) → Valid (queue_outgoing store username body now saving).1
  unfolding queue_outgoing queue_valid
  queue_outgoing-Valid username body = on_name (valid_username username)
    where
      id : Bytes
      id = local_id now (message_count store)

      with_text : Bytes → Option Bytes → Queued
      with_text name o = elim o [
        | none ↦ (err MessagesError.invalid_message, store)
        | some text ↦ queue_valid store name text now saving
      ]

      with_name : Option Bytes → Queued
      with_name o = elim o [
        | none ↦ (err MessagesError.invalid_username, store)
        | some name ↦ with_text name (valid_message body)
      ]

      on_text : (name : Bytes) (o : Option Bytes) → Valid (with_text name o).1
      on_text name none = valid
      on_text name (some text) =
          answer_with-Valid (λ s. ok (id, s)) err
            (sort_and_trim
              (change_conversation store name now (written (own_message id now name text) now)))
            now saving
            (sort_and_trim-Valid
              (change_conversation store name now (written (own_message id now name text) now))
              (change_conversation-Ready store name now (written (own_message id now name text) now)
                (λ c. written-username (own_message id now name text) now c)
                (λ c g. written-Good id name text now c g) ready))

      on_name : (o : Option Bytes) → Valid (with_name o).1
      on_name none = valid
      on_name (some name) = on_text name (valid_message body)

  pub set_delivery-Valid :
      (id : Bytes) (delivery : MessageDelivery) (error : Option Bytes)
      → Valid (set_delivery store id delivery error now saving).1
  unfolding set_delivery
  set_delivery-Valid id delivery error = go (find_message is_it store)
    where
      is_it : PrivateMessage → Bool
      is_it m = bytes_eq m.id id && is_outgoing m.direction

      f : PrivateMessage → PrivateMessage
      f m = record m { delivery = delivery; error = error }

      answer : Option PrivateMessage → Outcome
      answer o = elim o [
        | none ↦ (err MessagesError.message_not_found, store)
        | some m ↦
            persisted (touch_conversation (change_message is_it f store) m.username now) now saving
      ]

      go : (o : Option PrivateMessage) → Valid (answer o).1
      go none = valid
      go (some m) =
          answer_with-Valid ok err
            (touch_conversation (change_message is_it f store) m.username now) now saving
            (touch_conversation-Valid (change_message is_it f store) m.username now
              (change_message-Ready f (λ m. refl) is_it store ready))

  pub retry-Valid : (id : Bytes) → Valid (retry store id now saving).1
  unfolding retry
  retry-Valid id = go (find_message is_it store)
    where
      is_it : PrivateMessage → Bool
      is_it m = bytes_eq m.id id && (is_outgoing m.direction && is_failed m.delivery)

      f : PrivateMessage → PrivateMessage
      f m = record m { delivery = MessageDelivery.queued; error = none }

      answer : Option PrivateMessage → Answer (Bytes × Bytes × MessagesSnapshot) × Store
      answer o = elim o [
        | none ↦ (err MessagesError.message_not_found, store)
        | some m ↦
            answer_with (λ s. ok (m.username, m.body, s)) err
              (touch_conversation (change_message is_it f store) m.username now) now saving
      ]

      go : (o : Option PrivateMessage) → Valid (answer o).1
      go none = valid
      go (some m) =
          answer_with-Valid (λ s. ok (m.username, m.body, s)) err
            (touch_conversation (change_message is_it f store) m.username now) now saving
            (touch_conversation-Valid (change_message is_it f store) m.username now
              (change_message-Ready f (λ m. refl) is_it store ready))

  pub fail_queued-Valid : (error : Bytes) → Valid (fail_queued store error now saving).1
  unfolding fail_queued failed_all
  fail_queued-Valid error = go (any (λ (c : PrivateConversation). any waits c.messages) store)
    where
      changed : Store
      changed = failed_all (clean_error error) store

      fits : Valid changed
      fits =
          let r = failed_all-Ready (clean_error error) store ready in
          record {
            few = omega (arith, length-failed_all (clean_error error) store, valid.few);
            good = r.good;
            distinct = r.distinct;
          }

      answer : Bool → Outcome
      answer b =
          if b then persisted changed now saving else (ok (snapshot_from changed now), changed)

      go : (b : Bool) → Valid (answer b).1
      go true = answer_with-Valid ok err changed now saving fits
      go false = fits

  pub open_conversation-Valid :
      (username : Bytes) → Valid (open_conversation store username now saving).1
  unfolding open_conversation
  open_conversation-Valid username = on_name (valid_username username)
    where
      opened : Bytes → Store
      opened name = sort_and_trim (change_conversation store name now (λ c. c))

      after : Bytes → Bool → Outcome
      after name b =
          if b then (ok (snapshot_from store now), store) else persisted (opened name) now saving

      with_name : Option Bytes → Outcome
      with_name o = elim o [
        | none ↦ (err MessagesError.invalid_username, store)
        | some name ↦ after name (any (is_with name) store)
      ]

      either : (name : Bytes) (b : Bool) → Valid (after name b).1
      either name true = valid
      either name false = answer_with-Valid ok err (opened name) now saving (
          sort_and_trim-Valid (change_conversation store name now (λ c. c))
            (change_conversation-Ready store name now (λ c. c) (λ c. refl) (λ c g. g) ready))

      on_name : (o : Option Bytes) → Valid (with_name o).1
      on_name none = valid
      on_name (some name) = either name (any (is_with name) store)

  -- A conversation that is changed if there is one with the user, and what is answered if not.
  on_conversation :
      (username : Bytes) (f : PrivateConversation → PrivateConversation)
      (missing : Answer MessagesSnapshot)
      → ((c : PrivateConversation) → (f c).username ≡ c.username)
      → ((c : PrivateConversation) → Good c → Good (f c))
      → (o : Option Bytes)
      → Valid
          (elim o as (λ x. Outcome) [
            | none ↦ (err MessagesError.invalid_username, store)
            | some name ↦
                if any (is_with name) store
                then persisted (update_first (is_with name) f store) now saving
                else (missing, store)
          ]).1
  on_conversation username f missing n g none = valid
  on_conversation username f missing n g (some name) = go (any (is_with name) store)
    where
      answer : Bool → Outcome
      answer b =
          if b then persisted (update_first (is_with name) f store) now saving else (missing, store)

      go : (b : Bool) → Valid (answer b).1
      go true = changed_at (is_with name) f n g
      go false = valid

  pub mark_read-Valid : (username : Bytes) → Valid (mark_read store username now saving).1
  unfolding mark_read read_all
  mark_read-Valid username =
      on_conversation username read_all (ok (snapshot_from store now)) (λ c. refl) read_all-Good
        (valid_username username)

  pub clear_conversation-Valid :
      (username : Bytes) → Valid (clear_conversation store username now saving).1
  unfolding clear_conversation cleared
  clear_conversation-Valid username =
      on_conversation username (cleared now) (err MessagesError.conversation_not_found) (λ c. refl)
        (λ c g. cleared-Good now c) (valid_username username)

  pub mark_unread-Valid : (username : Bytes) → Valid (mark_unread store username now saving).1
  unfolding mark_unread unread_again
  mark_unread-Valid username = on_name (valid_username username)
    where
      on_messages : Bytes → List PrivateMessage → Outcome
      on_messages name l = elim l [
        | [] ↦ (err MessagesError.conversation_not_found, store)
        | m ∷ ms ↦ persisted (update_first (is_with name) unread_again store) now saving
      ]

      with_conversation : Bytes → Option PrivateConversation → Outcome
      with_conversation name o = elim o [
        | none ↦ (err MessagesError.conversation_not_found, store)
        | some c ↦ on_messages name c.messages
      ]

      with_name : Option Bytes → Outcome
      with_name o = elim o [
        | none ↦ (err MessagesError.invalid_username, store)
        | some name ↦ with_conversation name (find (is_with name) store)
      ]

      last : (name : Bytes) (l : List PrivateMessage) → Valid (on_messages name l).1
      last name [] = valid
      last name (m ∷ ms) = changed_at (is_with name) unread_again (λ c. refl) unread_again-Good

      found : (name : Bytes) (o : Option PrivateConversation) → Valid (with_conversation name o).1
      found name none = valid
      found name (some c) = last name c.messages

      on_name : (o : Option Bytes) → Valid (with_name o).1
      on_name none = valid
      on_name (some name) = found name (find (is_with name) store)

  pub remove_conversation-Valid :
      (username : Bytes) → Valid (remove_conversation store username now saving).1
  unfolding remove_conversation
  remove_conversation-Valid username = on_name (valid_username username)
    where
      others : Bytes → Store
      others name = keep (λ c. not (is_with name c)) store

      fits : (name : Bytes) → Valid (others name)
      fits name = record {
        few = omega (arith, length-keep-le (λ c. not (is_with name c)) store, valid.few);
        good = All-keep Good (λ c. not (is_with name c)) store valid.good;
        distinct = keep-Distinct (λ c. not (is_with name c)) store valid.distinct;
      }

      after : Bytes → Bool → Outcome
      after name b =
          if b
          then (err MessagesError.conversation_not_found, others name)
          else persisted (others name) now saving

      with_name : Option Bytes → Outcome
      with_name o = elim o [
        | none ↦ (err MessagesError.invalid_username, store)
        | some name ↦ after name (length (others name) == length store)
      ]

      either : (name : Bytes) (b : Bool) → Valid (after name b).1
      either name true = fits name
      either name false = answer_with-Valid ok err (others name) now saving (fits name)

      on_name : (o : Option Bytes) → Valid (with_name o).1
      on_name none = valid
      on_name (some name) = either name (length (others name) == length store)
