-- ===== src/Messages.antt =====
-- src-tauri/src/connection/messages.rs: the private conversations. An operation has the clock and
-- what the file system does with a save as arguments, and returns its answer with the new store.
pub mod Operations
pub mod Valid
pub mod Kept
pub mod Preserved
pub mod Runs
use forever.Prelude.{
  ℕ, zero, suc, ◌+◌, ◌-◌, ◌*◌, ◌^◌, min, max, Bool, true, false, not, ◌&&◌, ◌||◌, Option, none,
  some, List, [], ◌∷◌, ◌++◌, length, is_empty, keep, all, any, find, map, take, drop, update_first,
  leb, ltb, ◌==◌, if◌then◌else◌,
}
use forever.Bytes.{Bytes, bytes_eq}
use forever.Text.{is_ascii_graphic}
use forever.Text.Trim.{trim}
use forever.Uploads.Types.{eq_ignore_ascii_case}

abbrev pub max_conversations : ℕ
max_conversations = 100

abbrev pub max_messages_per_conversation : ℕ
max_messages_per_conversation = 500

abbrev pub max_private_message_bytes : ℕ
max_private_message_bytes = 8 * 1024

pub data MessageDirection : Type 0 where
  incoming : MessageDirection
  outgoing : MessageDirection

pub data MessageDelivery : Type 0 where
  received : MessageDelivery
  queued : MessageDelivery
  sent : MessageDelivery
  failed : MessageDelivery

abbrev pub is_outgoing : MessageDirection → Bool
is_outgoing MessageDirection.incoming = false
is_outgoing MessageDirection.outgoing = true

abbrev pub is_queued : MessageDelivery → Bool
is_queued MessageDelivery.received = false
is_queued MessageDelivery.queued = true
is_queued MessageDelivery.sent = false
is_queued MessageDelivery.failed = false

abbrev pub is_failed : MessageDelivery → Bool
is_failed MessageDelivery.received = false
is_failed MessageDelivery.queued = false
is_failed MessageDelivery.sent = false
is_failed MessageDelivery.failed = true

pub record PrivateMessage : Type 0 where
  pub id : Bytes
  pub server_id : Option ℕ
  pub username : Bytes
  pub body : Bytes
  pub direction : MessageDirection
  pub sent_at_ms : ℕ
  pub unread : Bool
  pub delivery : MessageDelivery
  pub error : Option Bytes

pub record PrivateConversation : Type 0 where
  pub username : Bytes
  pub messages : List PrivateMessage
  pub unread_count : ℕ
  pub updated_at_ms : ℕ

pub record MessagesSnapshot : Type 0 where
  pub conversations : List PrivateConversation
  pub unread_count : ℕ
  pub updated_at_ms : ℕ

-- `MessagesStore`: its version is a constant.
abbrev pub Store : Type 0
Store = List PrivateConversation

pub data MessagesError : Type 0 where
  invalid_username : MessagesError
  invalid_message : MessagesError
  message_not_found : MessagesError
  conversation_not_found : MessagesError
  -- the error's text
  io : Bytes → MessagesError

-- `Result<A, MessagesError>`
pub data Answer (A : Type 0) : Type 0 where
  ok : A → Answer A
  err : MessagesError → Answer A

-- What the file system does with a save: `none`, or the text of the error.
abbrev pub Saving : Type 0
Saving = Option Bytes

unfoldable pub unread_sum : ℕ → Store → ℕ
unread_sum total [] = total
unread_sum total (c ∷ cs) = unread_sum (min (total + c.unread_count) (2 ^ 32 - 1)) cs

unfoldable pub snapshot_from : Store → ℕ → MessagesSnapshot
unfolding unread_sum
snapshot_from store now = record {
  conversations = store;
  unread_count = unread_sum 0 store;
  updated_at_ms = now;
}

-- `byte.is_ascii_graphic() || byte == b' '`
abbrev pub is_name_byte : ℕ → Bool
is_name_byte byte = is_ascii_graphic byte || byte == b' '

unfoldable pub valid_username : Bytes → Option Bytes
valid_username value =
    let value = trim value in
    if not (is_empty value) && (leb (length value) 100 && all is_name_byte value)
    then some value
    else none

unfoldable pub valid_message : Bytes → Option Bytes
valid_message value =
    let value = trim (keep (λ byte. not (byte == 0)) value) in
    if is_empty value || ltb max_private_message_bytes (length value) then none else some value

-- `chars().take(n)` of UTF-8 bytes: a byte from 0x80 to 0xBF goes on with a character.
unfoldable pub take_chars : ℕ → Bytes → Bytes
take_chars n [] = []
take_chars zero (byte ∷ rest) =
    let more = take_chars zero rest in if leb 128 byte && leb byte 191 then byte ∷ more else []
take_chars (suc n) (byte ∷ rest) =
    let same = take_chars (suc n) rest in
    let next = take_chars n rest in
    if leb 128 byte && leb byte 191 then byte ∷ same else byte ∷ next

unfoldable pub clean_error : Bytes → Bytes
unfolding take_chars
clean_error value = trim (
    take_chars 500
      (map (λ byte. if byte == 13 || (byte == 10 || byte == 0) then b' ' else byte) value))

abbrev pub is_unread : PrivateMessage → Bool
is_unread message = message.unread

abbrev pub unread_of : List PrivateMessage → ℕ
unread_of messages = min (length (keep is_unread messages)) (2 ^ 32 - 1)

abbrev pub is_with : Bytes → PrivateConversation → Bool
is_with username conversation = eq_ignore_ascii_case conversation.username username

-- `conversation_mut`, and the change that is made to what it returns.
unfoldable pub change_conversation :
    Store → Bytes → ℕ → (PrivateConversation → PrivateConversation) → Store
change_conversation store username now f =
    if any (is_with username) store
    then update_first (is_with username) f store
    else store
      ++ f (record { username = username; messages = []; unread_count = 0; updated_at_ms = now })
        ∷ []

unfoldable pub trim_conversation : PrivateConversation → PrivateConversation
trim_conversation c =
    let kept = drop (length c.messages - max_messages_per_conversation) c.messages in
    if ltb max_messages_per_conversation (length c.messages)
    then record c { messages = kept; unread_count = unread_of kept }
    else c

-- A stable sort, the conversation that was updated last first.
unfoldable pub insert : PrivateConversation → Store → Store
insert c [] = c ∷ []
insert c (d ∷ ds) =
    let rest = insert c ds in if leb d.updated_at_ms c.updated_at_ms then c ∷ (d ∷ ds) else d ∷ rest

unfoldable pub sort : Store → Store
unfolding insert
sort [] = []
sort (c ∷ cs) = insert c (sort cs)

unfoldable pub sort_and_trim : Store → Store
unfolding sort
sort_and_trim store = take max_conversations (sort store)

unfoldable pub touch_conversation : Store → Bytes → ℕ → Store
unfolding sort_and_trim
touch_conversation store username now =
    sort_and_trim (update_first (is_with username) (λ c. record c { updated_at_ms = now }) store)

-- The first message of any conversation that passes a test, and a change to it.
unfoldable pub find_message : (PrivateMessage → Bool) → Store → Option PrivateMessage
find_message p [] = none
find_message p (c ∷ cs) =
    let rest = find_message p cs in elim (find p c.messages) [ some m ↦ some m | none ↦ rest ]

unfoldable pub change_message :
    (PrivateMessage → Bool) → (PrivateMessage → PrivateMessage) → Store → Store
change_message p f [] = []
change_message p f (c ∷ cs) =
    let rest = change_message p f cs in
    if any p c.messages then record c { messages = update_first p f c.messages } ∷ cs else c ∷ rest
