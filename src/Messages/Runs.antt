-- ===== src/Messages/Runs.antt =====
-- Every sequence of operations on the store of messages.rs.
use forever.Prelude.{
  ℕ, ◌+◌, ◌^◌, min, ◌≤◌, ◌≡◌, refl, ap, ◌∙◌, Bool, true, false, ◌||◌, ◌*◌, ◌-◌, none, some, List,
  [], ◌∷◌, length, keep, map, All, any, arith, if◌then◌else◌, length-keep-le,
}
use forever.Bytes.{Bytes}
use forever.Uploads.Grows.{and_false}
use forever.Messages.{
  MessageDelivery, PrivateMessage, PrivateConversation, Store, Saving,
  max_messages_per_conversation, is_outgoing, is_unread, clean_error, unread_sum, snapshot_from, ok,
}
use forever.Messages.Operations.{
  record_incoming, queue_outgoing, mark_sent, mark_failed, retry, fail_queued, open_conversation,
  mark_read, mark_unread, clear_conversation, remove_conversation, waits, failed_message,
  failed_all, answer_with, persisted, Outcome,
}
use forever.Messages.Valid.{Valid, Good}
use forever.Messages.Preserved.{
  record_incoming-Valid, queue_outgoing-Valid, set_delivery-Valid, retry-Valid, fail_queued-Valid,
  open_conversation-Valid, mark_read-Valid, mark_unread-Valid, clear_conversation-Valid,
  remove_conversation-Valid,
}

-- The calls that change the store, each at a time and with the outcome of its save.
pub data Operation : Type 0 where
  -- the server's number, its time in seconds, the user and the text
  receives : ℕ → ℕ → Bytes → Bytes → Operation
  queues : Bytes → Bytes → Operation
  sends : Bytes → Operation
  fails : Bytes → Bytes → Operation
  retries : Bytes → Operation
  fails_all : Bytes → Operation
  opens : Bytes → Operation
  reads : Bytes → Operation
  unreads : Bytes → Operation
  clears : Bytes → Operation
  removes : Bytes → Operation

abbrev pub run : Operation → ℕ → Saving → Store → Store
run (Operation.receives server_id seconds username body) now saving store =
    (record_incoming store server_id seconds username body now saving).1
run (Operation.queues username body) now saving store =
    (queue_outgoing store username body now saving).1
run (Operation.sends id) now saving store = (mark_sent store id now saving).1
run (Operation.fails id error) now saving store = (mark_failed store id error now saving).1
run (Operation.retries id) now saving store = (retry store id now saving).1
run (Operation.fails_all error) now saving store = (fail_queued store error now saving).1
run (Operation.opens username) now saving store = (open_conversation store username now saving).1
run (Operation.reads username) now saving store = (mark_read store username now saving).1
run (Operation.unreads username) now saving store = (mark_unread store username now saving).1
run (Operation.clears username) now saving store = (clear_conversation store username now saving).1
run (Operation.removes username) now saving store =
    (remove_conversation store username now saving).1

abbrev pub run_all : List (Operation × ℕ × Saving) → Store → Store
run_all [] store = store
run_all ((o, now, saving) ∷ os) store = run_all os (run o now saving store)

run-Valid :
    (o : Operation) (now : ℕ) (saving : Saving) (store : Store)
    → Valid store
    → Valid (run o now saving store)
unfolding mark_sent mark_failed
run-Valid (Operation.receives server_id seconds username body) now saving store h =
    record_incoming-Valid store h now saving server_id seconds username body
run-Valid (Operation.queues username body) now saving store h =
    queue_outgoing-Valid store h now saving username body
run-Valid (Operation.sends id) now saving store h =
    set_delivery-Valid store h now saving id MessageDelivery.sent none
run-Valid (Operation.fails id error) now saving store h =
    set_delivery-Valid store h now saving id MessageDelivery.failed (some (clean_error error))
run-Valid (Operation.retries id) now saving store h = retry-Valid store h now saving id
run-Valid (Operation.fails_all error) now saving store h =
    fail_queued-Valid store h now saving error
run-Valid (Operation.opens username) now saving store h =
    open_conversation-Valid store h now saving username
run-Valid (Operation.reads username) now saving store h =
    mark_read-Valid store h now saving username
run-Valid (Operation.unreads username) now saving store h =
    mark_unread-Valid store h now saving username
run-Valid (Operation.clears username) now saving store h =
    clear_conversation-Valid store h now saving username
run-Valid (Operation.removes username) now saving store h =
    remove_conversation-Valid store h now saving username

run_all-kept :
    (os : List (Operation × ℕ × Saving)) (store : Store) → Valid store → Valid (run_all os store)
run_all-kept [] store h = h
run_all-kept ((o, now, saving) ∷ os) store h =
    run_all-kept os (run o now saving store) (run-Valid o now saving store h)

-- Through every sequence of operations on a store that starts empty, whatever their arguments, the
-- clock and the outcome of each save: there are at most 100 conversations of at most 500 messages,
-- no two with one user in whatever case, and the count of each is the number of its unread
-- messages.
pub run_all-Valid : (operations : List (Operation × ℕ × Saving)) → Valid (run_all operations [])
run_all-Valid operations =
    run_all-kept operations [] (record { few = omega arith; good = tt; distinct = tt })

-- The unread messages of all conversations.
abbrev pub unread_in : Store → ℕ
unread_in [] = 0
unread_in (c ∷ cs) = length (keep is_unread c.messages) + unread_in cs

unread_sum-exact :
    (store : Store) (total : ℕ)
    → All Good store
    → total + unread_in store ≤ 2 ^ 32 - 1
    → unread_sum total store ≡ total + unread_in store
unfolding unread_sum
unread_sum-exact [] total h k = omega arith
unread_sum-exact (c ∷ cs) total ((few, count), hs) k =
    let next : min (total + c.unread_count) (2 ^ 32 - 1)
        ≡ total + length (keep is_unread c.messages) =
      omega arith in
    ap (λ t. unread_sum t cs) next
    ∙ unread_sum-exact cs (total + length (keep is_unread c.messages)) hs (omega arith)
    ∙ omega arith

unread_in-bound :
    (store : Store)
    → All Good store
    → unread_in store ≤ max_messages_per_conversation * length store
unread_in-bound [] h = omega arith
unread_in-bound (c ∷ cs) ((few, count), hs) =
    omega (arith, unread_in-bound cs hs, length-keep-le is_unread c.messages)

-- After every sequence of operations on a store that starts empty, the unread count of the
-- snapshot is the number of unread messages of all conversations: the saturating sum never
-- saturates.
pub snapshot-unread :
    (operations : List (Operation × ℕ × Saving)) (now : ℕ)
    → (snapshot_from (run_all operations []) now).unread_count ≡ unread_in (run_all operations [])
unfolding snapshot_from
snapshot-unread operations now =
    let v = run_all-Valid operations in
    unread_sum-exact (run_all operations []) 0 v.good
      (omega (arith, unread_in-bound (run_all operations []) v.good, v.few))
    ∙ omega arith

-- No message of a conversation waits to be sent.
abbrev pub NoneWaits : PrivateConversation → Type 0
NoneWaits c = any waits c.messages ≡ false

none_waits :
    (error : Bytes) (ms : List PrivateMessage) → any waits (map (failed_message error) ms) ≡ false
unfolding failed_message
none_waits error [] = refl
none_waits error (m ∷ ms) = go (waits m) refl (none_waits error ms)
  where
    after : Bool → PrivateMessage
    after b = if b then record m { delivery = MessageDelivery.failed; error = some error } else m

    go :
        (b : Bool)
        → waits m ≡ b
        → any waits (map (failed_message error) ms) ≡ false
        → any waits (after b ∷ map (failed_message error) ms) ≡ false
    go true e r =
        ap (λ x. x || any waits (map (failed_message error) ms))
          (and_false (is_outgoing m.direction))
        ∙ r
    go false e r = ap (λ x. x || any waits (map (failed_message error) ms)) e ∙ r

failed_all-NoneWaits : (error : Bytes) (store : Store) → All NoneWaits (failed_all error store)
unfolding failed_all
failed_all-NoneWaits error [] = tt
failed_all-NoneWaits error (c ∷ cs) = (none_waits error c.messages, failed_all-NoneWaits error cs)

-- After `fail_queued` no message of any conversation waits to be sent, whether or not the store
-- could be saved.
pub fail_queued-NoneWaits :
    (store : Store) (error : Bytes) (now : ℕ) (saving : Saving)
    → All NoneWaits (fail_queued store error now saving).1
unfolding fail_queued answer_with
fail_queued-NoneWaits store error now saving =
    go (any (λ (c : PrivateConversation). any waits c.messages) store) saving
  where
    changed : Store
    changed = failed_all (clean_error error) store

    answer : Bool → Saving → Outcome
    answer b s = if b then persisted changed now s else (ok (snapshot_from changed now), changed)

    all_failed : All NoneWaits changed
    all_failed = failed_all-NoneWaits (clean_error error) store

    go : (b : Bool) (s : Saving) → All NoneWaits (answer b s).1
    go true none = all_failed
    go true (some e) = all_failed
    go false s = all_failed
