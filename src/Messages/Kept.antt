-- ===== src/Messages/Kept.antt =====
-- The changes that messages.rs makes to a conversation keep its bounds and its count.
use forever.Prelude.{
  ℕ, suc, ◌+◌, ◌-◌, ◌^◌, min, max, ◌≤◌, ◌≡◌, refl, ap, sym, subst, ◌∙◌, Bool, true, false, some,
  List, [], ◌∷◌, ◌++◌, length, keep, any, map, drop, update_first, All, ltb, if◌then◌else◌, arith,
  length-drop, length-keep-le, length-map,
}
use forever.Bytes.{Bytes}
use forever.Messages.{
  MessageDelivery, PrivateMessage, PrivateConversation, Store, max_messages_per_conversation,
  is_unread, unread_of, trim_conversation, change_message,
}
use forever.Messages.Operations.{
  received, written, server_message, own_message, waits, failed_message, failed_all, read_all,
  unread_last, unread_again, cleared,
}
use forever.Messages.Valid.{Good, names, Distinct, Ready}

few_unread :
    (ms : List PrivateMessage)
    → length ms ≤ max_messages_per_conversation
    → unread_of ms ≡ length (keep is_unread ms)
few_unread ms h = omega (arith, length-keep-le is_unread ms)

trim_conversation-Good :
    (c : PrivateConversation)
    → c.unread_count ≡ length (keep is_unread c.messages)
    → Good (trim_conversation c)
unfolding trim_conversation
trim_conversation-Good c h = go (ltb max_messages_per_conversation (length c.messages)) refl
  where
    kept : List PrivateMessage
    kept = drop (length c.messages - max_messages_per_conversation) c.messages

    few : length kept ≤ max_messages_per_conversation
    few = omega (arith, length-drop (length c.messages - max_messages_per_conversation) c.messages)

    go :
        (b : Bool)
        → ltb max_messages_per_conversation (length c.messages) ≡ b
        → Good (if b then record c { messages = kept; unread_count = unread_of kept } else c)
    go true e = (few, few_unread kept few)
    go false e = (ground (arith, e), h)

unread-append :
    (ms : List PrivateMessage) (m : PrivateMessage)
    → length (keep is_unread (ms ++ m ∷ []))
      ≡ length (keep is_unread ms) + length (keep is_unread (m ∷ []))
unread-append [] m = omega arith
unread-append (n ∷ ms) m = ground (arith, unread-append ms m)

pub received-Good :
    (server_id sent now : ℕ) (username body : Bytes) (c : PrivateConversation)
    → Good c
    → Good (received (server_message server_id sent username body) now c)
unfolding received server_message
received-Good server_id sent now username body c (few, count) =
    trim_conversation-Good
      (record c {
        messages = c.messages ++ server_message server_id sent username body ∷ [];
        unread_count = min (c.unread_count + 1) (2 ^ 32 - 1);
        updated_at_ms = max sent now;
      })
      (omega (
        arith,
        unread-append c.messages (server_message server_id sent username body),
        length-keep-le is_unread c.messages,
      ))

pub written-Good :
    (id username body : Bytes) (now : ℕ) (c : PrivateConversation)
    → Good c
    → Good (written (own_message id now username body) now c)
unfolding written own_message
written-Good id username body now c (few, count) =
    trim_conversation-Good
      (record c {
        messages = c.messages ++ own_message id now username body ∷ [];
        updated_at_ms = now;
      })
      (omega (arith, unread-append c.messages (own_message id now username body)))

-- A change of messages one by one that leaves `unread` as it is.
module _ (f : PrivateMessage → PrivateMessage)
    (same : (m : PrivateMessage) → (f m).unread ≡ m.unread) where
  pub unread-map :
      (ms : List PrivateMessage) → length (keep is_unread (map f ms)) ≡ length (keep is_unread ms)
  unread-map [] = refl
  unread-map (m ∷ ms) = ground (arith, same m, unread-map ms)

  unread-update_first :
      (p : PrivateMessage → Bool) (ms : List PrivateMessage)
      → (length (update_first p f ms) ≡ length ms)
        × (length (keep is_unread (update_first p f ms)) ≡ length (keep is_unread ms))
  unread-update_first p [] = (refl, refl)
  unread-update_first p (m ∷ ms) =
      let rest = unread-update_first p ms in
      elim (p m)
        as (λ b.
          (length (elim b [ true ↦ f m ∷ ms | false ↦ m ∷ update_first p f ms ]) ≡ length (m ∷ ms))
          × (length (keep is_unread (elim b [ true ↦ f m ∷ ms | false ↦ m ∷ update_first p f ms ]))
              ≡ length (keep is_unread (m ∷ ms)))) [
                | true ↦ (refl, ground (arith, same m))
                | false ↦ (ap suc rest.0, ground (arith, rest.1))
              ]

  pub change_message-Good :
      (p : PrivateMessage → Bool) (store : Store)
      → All Good store
      → All Good (change_message p f store)
  unfolding change_message
  change_message-Good p [] h = tt
  change_message-Good p (c ∷ cs) ((few, count), hs) =
      go (any p c.messages) (change_message-Good p cs hs)
    where
      go :
          (b : Bool)
          → All Good (change_message p f cs)
          → All Good (
              if b
              then record c { messages = update_first p f c.messages } ∷ cs
              else c ∷ change_message p f cs)
      go true r =
          let e = unread-update_first p c.messages in ((omega (arith, e.0), count ∙ sym e.1), hs)
      go false r = ((few, count), r)

  pub change_message-names :
      (p : PrivateMessage → Bool) (store : Store) → names (change_message p f store) ≡ names store
  unfolding change_message
  change_message-names p [] = refl
  change_message-names p (c ∷ cs) =
      elim (any p c.messages)
        as (λ b.
          names (
            if b
            then record c { messages = update_first p f c.messages } ∷ cs
            else c ∷ change_message p f cs)
          ≡ names (c ∷ cs)) [
            | true ↦ refl
            | false ↦ ap (λ l. c.username ∷ l) (change_message-names p cs)
          ]

  pub change_message-Ready :
      (p : PrivateMessage → Bool) (store : Store) → Ready store → Ready (change_message p f store)
  change_message-Ready p store h = record {
    good = change_message-Good p store h.good;
    distinct = subst Distinct (sym (change_message-names p store)) h.distinct;
  }

failed_message-unread :
    (error : Bytes) (m : PrivateMessage) → (failed_message error m).unread ≡ m.unread
unfolding failed_message
failed_message-unread error m = go (waits m)
  where
    go :
        (b : Bool)
        → (if b
            then record m { delivery = MessageDelivery.failed; error = some error }
            else m).unread
          ≡ m.unread
    go true = refl
    go false = refl

pub failed_all-Ready :
    (error : Bytes) (store : Store) → Ready store → Ready (failed_all error store)
unfolding failed_all
failed_all-Ready error store h = record {
  good = go store h.good;
  distinct = subst Distinct (sym (same store)) h.distinct;
}
  where
    f : PrivateConversation → PrivateConversation
    f c = record c { messages = map (failed_message error) c.messages }

    go : (cs : Store) → All Good cs → All Good (map f cs)
    go [] k = tt
    go (c ∷ cs) ((few, count), ks) = (
      (
        omega (arith, length-map (failed_message error) c.messages),
        count ∙ sym (unread-map (failed_message error) (failed_message-unread error) c.messages),
      ),
      go cs ks,
    )

    same : (cs : Store) → names (map f cs) ≡ names cs
    same [] = refl
    same (c ∷ cs) = ap (λ l. c.username ∷ l) (same cs)

pub read_all-Good : (c : PrivateConversation) → Good c → Good (read_all c)
unfolding read_all
read_all-Good c (few, count) = (
  omega (arith, length-map (λ (m : PrivateMessage). record m { unread = false }) c.messages),
  sym (none_unread c.messages),
)
  where
    none_unread :
        (ms : List PrivateMessage)
        → length (keep is_unread (map (λ (m : PrivateMessage). record m { unread = false }) ms)) ≡ 0
    none_unread [] = refl
    none_unread (m ∷ ms) = none_unread ms

length-unread_last : (ms : List PrivateMessage) → length (unread_last ms) ≡ length ms
unfolding unread_last
length-unread_last [] = refl
length-unread_last (m ∷ []) = refl
length-unread_last (m ∷ (n ∷ ms)) = ap suc (length-unread_last (n ∷ ms))

pub unread_again-Good : (c : PrivateConversation) → Good c → Good (unread_again c)
unfolding unread_again
unread_again-Good c (few, count) =
    let e = length-unread_last c.messages in
    (omega (arith, e), few_unread (unread_last c.messages) (omega (arith, e)))

pub cleared-Good : (now : ℕ) (c : PrivateConversation) → Good (cleared now c)
unfolding cleared
cleared-Good now c = (omega arith, refl)

trim_conversation-username : (c : PrivateConversation) → (trim_conversation c).username ≡ c.username
unfolding trim_conversation
trim_conversation-username c = go (ltb max_messages_per_conversation (length c.messages))
  where
    kept : List PrivateMessage
    kept = drop (length c.messages - max_messages_per_conversation) c.messages

    go :
        (b : Bool)
        → (if b then record c { messages = kept; unread_count = unread_of kept } else c).username
          ≡ c.username
    go true = refl
    go false = refl

pub received-username :
    (m : PrivateMessage) (now : ℕ) (c : PrivateConversation)
    → (received m now c).username ≡ c.username
unfolding received
received-username m now c = trim_conversation-username (record c {
  messages = c.messages ++ m ∷ [];
  unread_count = min (c.unread_count + 1) (2 ^ 32 - 1);
  updated_at_ms = max m.sent_at_ms now;
})

pub written-username :
    (m : PrivateMessage) (now : ℕ) (c : PrivateConversation)
    → (written m now c).username ≡ c.username
unfolding written
written-username m now c =
    trim_conversation-username (record c { messages = c.messages ++ m ∷ []; updated_at_ms = now })

pub length-failed_all :
    (error : Bytes) (store : Store) → length (failed_all error store) ≡ length store
unfolding failed_all
length-failed_all error store =
    length-map
      (λ (c : PrivateConversation). record c { messages = map (failed_message error) c.messages })
      store
