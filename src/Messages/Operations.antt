-- ===== src/Messages/Operations.antt =====
-- The operations of `MessagesHub` in messages.rs.
use forever.Prelude.{
  ℕ, ◌+◌, ◌-◌, ◌*◌, ◌^◌, min, max, Bool, true, false, not, ◌&&◌, Option, none, some, List, [], ◌∷◌,
  ◌++◌, length, keep, any, find, map, update_first, ◌==◌, if◌then◌else◌,
}
use forever.Bytes.{Bytes, bytes_eq}
use forever.Uploads.Hub.{decimal}
use forever.Messages.{
  MessageDirection, MessageDelivery, is_outgoing, is_queued, is_failed, PrivateMessage,
  PrivateConversation, MessagesSnapshot, Store, MessagesError, Answer, ok, err, Saving,
  snapshot_from, valid_username, valid_message, clean_error, unread_of, is_with,
  change_conversation, trim_conversation, sort_and_trim, touch_conversation, find_message,
  change_message,
}

abbrev pub Outcome : Type 0
Outcome = Answer MessagesSnapshot × Store

-- `persist(…)?`, then the snapshot. A store that could not be saved stays as it was changed.
unfoldable pub answer_with {ℓ} :
    {A : Type ℓ} → (MessagesSnapshot → A) → (MessagesError → A) → Store → ℕ → Saving → A × Store
answer_with done failed store now none = (done (snapshot_from store now), store)
answer_with done failed store now (some e) = (failed (MessagesError.io e), store)

abbrev pub persisted : Store → ℕ → Saving → Outcome
persisted store now saving = answer_with ok err store now saving

abbrev pub has_server_id : ℕ → PrivateMessage → Bool
has_server_id id message = elim message.server_id [ none ↦ false | some n ↦ n == id ]

unfoldable pub server_message : ℕ → ℕ → Bytes → Bytes → PrivateMessage
server_message server_id sent_at_ms username body = record {
  id = b's' ∷ b'e' ∷ b'r' ∷ b'v' ∷ b'e' ∷ b'r' ∷ b'-' ∷ decimal server_id;
  server_id = some server_id;
  username = username;
  body = body;
  direction = MessageDirection.incoming;
  sent_at_ms = sent_at_ms;
  unread = true;
  delivery = MessageDelivery.received;
  error = none;
}

-- A message that comes in is pushed and counted, and the conversation trimmed.
unfoldable pub received : PrivateMessage → ℕ → PrivateConversation → PrivateConversation
received message now c = trim_conversation (record c {
  messages = c.messages ++ message ∷ [];
  unread_count = min (c.unread_count + 1) (2 ^ 32 - 1);
  updated_at_ms = max message.sent_at_ms now;
})

unfoldable pub record_valid : Store → ℕ → ℕ → Bytes → Bytes → ℕ → Saving → Outcome
unfolding received server_message
record_valid store server_id seconds username body now saving =
    let message = server_message server_id (min (seconds * 1_000) (2 ^ 64 - 1)) username body in
    if any (λ c. any (has_server_id server_id) c.messages) store
    then (ok (snapshot_from store now), store)
    else persisted (sort_and_trim (change_conversation store username now (received message now)))
        now saving

unfoldable pub record_incoming : Store → ℕ → ℕ → Bytes → Bytes → ℕ → Saving → Outcome
unfolding record_valid
record_incoming store server_id seconds username body now saving = elim (valid_username username) [
  | none ↦ (err MessagesError.invalid_username, store)
  | some name ↦ elim (valid_message body) [
    | none ↦ (err MessagesError.invalid_message, store)
    | some text ↦ record_valid store server_id seconds name text now saving
  ]
]

unfoldable pub message_count : Store → ℕ
message_count [] = 0
message_count (c ∷ cs) = length c.messages + message_count cs

unfoldable pub local_id : ℕ → ℕ → Bytes
local_id now sequence =
    b'l' ∷ b'o' ∷ b'c' ∷ b'a' ∷ b'l' ∷ b'-' ∷ (decimal now ++ (b'-' ∷ decimal sequence))

unfoldable pub own_message : Bytes → ℕ → Bytes → Bytes → PrivateMessage
own_message id now username body = record {
  id = id;
  server_id = none;
  username = username;
  body = body;
  direction = MessageDirection.outgoing;
  sent_at_ms = now;
  unread = false;
  delivery = MessageDelivery.queued;
  error = none;
}

unfoldable pub written : PrivateMessage → ℕ → PrivateConversation → PrivateConversation
written message now c =
    trim_conversation (record c { messages = c.messages ++ message ∷ []; updated_at_ms = now })

abbrev pub Queued : Type 0
Queued = Answer (Bytes × MessagesSnapshot) × Store

unfoldable pub queue_valid : Store → Bytes → Bytes → ℕ → Saving → Queued
unfolding written own_message message_count local_id answer_with
queue_valid store username body now saving =
    let id = local_id now (message_count store) in
    answer_with (λ s. ok (id, s)) err
      (sort_and_trim
        (change_conversation store username now (written (own_message id now username body) now)))
      now saving

unfoldable pub queue_outgoing : Store → Bytes → Bytes → ℕ → Saving → Queued
unfolding queue_valid
queue_outgoing store username body now saving = elim (valid_username username) [
  | none ↦ (err MessagesError.invalid_username, store)
  | some name ↦ elim (valid_message body) [
    | none ↦ (err MessagesError.invalid_message, store)
    | some text ↦ queue_valid store name text now saving
  ]
]

unfoldable pub set_delivery : Store → Bytes → MessageDelivery → Option Bytes → ℕ → Saving → Outcome
set_delivery store id delivery error now saving =
    let is_it = λ (m : PrivateMessage). bytes_eq m.id id && is_outgoing m.direction in
    elim (find_message is_it store) [
      | none ↦ (err MessagesError.message_not_found, store)
      | some m ↦
          persisted
            (touch_conversation
              (change_message is_it (λ m. record m { delivery = delivery; error = error }) store)
              m.username now)
            now saving
    ]

unfoldable pub mark_sent : Store → Bytes → ℕ → Saving → Outcome
mark_sent store id now saving = set_delivery store id MessageDelivery.sent none now saving

unfoldable pub mark_failed : Store → Bytes → Bytes → ℕ → Saving → Outcome
mark_failed store id error now saving =
    set_delivery store id MessageDelivery.failed (some (clean_error error)) now saving

-- The name and the text that are sent again.
unfoldable pub retry :
    Store → Bytes → ℕ → Saving → Answer (Bytes × Bytes × MessagesSnapshot) × Store
unfolding answer_with
retry store id now saving =
    let is_it = λ (m : PrivateMessage).
      bytes_eq m.id id && (is_outgoing m.direction && is_failed m.delivery) in
    elim (find_message is_it store) [
      | none ↦ (err MessagesError.message_not_found, store)
      | some m ↦
          answer_with (λ s. ok (m.username, m.body, s)) err
            (touch_conversation
              (change_message is_it
                (λ m. record m { delivery = MessageDelivery.queued; error = none }) store)
              m.username now)
            now saving
    ]

abbrev pub waits : PrivateMessage → Bool
waits m = is_outgoing m.direction && is_queued m.delivery

unfoldable pub failed_message : Bytes → PrivateMessage → PrivateMessage
failed_message error m =
    if waits m then record m { delivery = MessageDelivery.failed; error = some error } else m

unfoldable pub failed_all : Bytes → Store → Store
unfolding failed_message
failed_all error store =
    map (λ (c : PrivateConversation). record c { messages = map (failed_message error) c.messages })
      store

unfoldable pub fail_queued : Store → Bytes → ℕ → Saving → Outcome
unfolding failed_all
fail_queued store error now saving =
    let changed = failed_all (clean_error error) store in
    if any (λ c. any waits c.messages) store
    then persisted changed now saving
    else (ok (snapshot_from changed now), changed)

unfoldable pub open_conversation : Store → Bytes → ℕ → Saving → Outcome
open_conversation store username now saving = elim (valid_username username) [
  | none ↦ (err MessagesError.invalid_username, store)
  | some name ↦
      if any (is_with name) store
      then (ok (snapshot_from store now), store)
      else persisted (sort_and_trim (change_conversation store name now (λ c. c))) now saving
]

unfoldable pub read_all : PrivateConversation → PrivateConversation
read_all c = record c {
  unread_count = 0;
  messages = map (λ (m : PrivateMessage). record m { unread = false }) c.messages;
}

unfoldable pub mark_read : Store → Bytes → ℕ → Saving → Outcome
unfolding read_all
mark_read store username now saving = elim (valid_username username) [
  | none ↦ (err MessagesError.invalid_username, store)
  | some name ↦
      if any (is_with name) store
      then persisted (update_first (is_with name) read_all store) now saving
      else (ok (snapshot_from store now), store)
]

-- `last_mut()`
unfoldable pub unread_last : List PrivateMessage → List PrivateMessage
unread_last [] = []
unread_last (m ∷ []) = record m { unread = true } ∷ []
unread_last (m ∷ (n ∷ ms)) = m ∷ unread_last (n ∷ ms)

unfoldable pub unread_again : PrivateConversation → PrivateConversation
unfolding unread_last
unread_again c =
    let messages = unread_last c.messages in
    record c { messages = messages; unread_count = unread_of messages }

unfoldable pub mark_unread : Store → Bytes → ℕ → Saving → Outcome
unfolding unread_again
mark_unread store username now saving = elim (valid_username username) [
  | none ↦ (err MessagesError.invalid_username, store)
  | some name ↦ elim (find (is_with name) store) [
    | none ↦ (err MessagesError.conversation_not_found, store)
    | some c ↦ elim c.messages [
      | [] ↦ (err MessagesError.conversation_not_found, store)
      | m ∷ ms ↦ persisted (update_first (is_with name) unread_again store) now saving
    ]
  ]
]

unfoldable pub cleared : ℕ → PrivateConversation → PrivateConversation
cleared now c = record c { messages = []; unread_count = 0; updated_at_ms = now }

unfoldable pub clear_conversation : Store → Bytes → ℕ → Saving → Outcome
unfolding cleared
clear_conversation store username now saving = elim (valid_username username) [
  | none ↦ (err MessagesError.invalid_username, store)
  | some name ↦
      if any (is_with name) store
      then persisted (update_first (is_with name) (cleared now) store) now saving
      else (err MessagesError.conversation_not_found, store)
]

unfoldable pub remove_conversation : Store → Bytes → ℕ → Saving → Outcome
remove_conversation store username now saving = elim (valid_username username) [
  | none ↦ (err MessagesError.invalid_username, store)
  | some name ↦
      let others = keep (λ c. not (is_with name c)) store in
      if length others == length store
      then (err MessagesError.conversation_not_found, others)
      else persisted others now saving
]
