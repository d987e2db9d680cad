-- ===== src/Protocol/Rooms/Limits.antt =====
-- What the parsers of protocol.rs for rooms let through, whatever the server sent.
use forever.Prelude.{
  ℕ, suc, Option, String, ◌≤◌, ◌≡◌, refl, ap, Bool, List, [], ◌∷◌, length, All, arith,
}
use forever.Bytes.{Bytes, IsBytes}
use forever.Protocol.Codes.{max_room_list, max_room_members, max_room_message_bytes}
use forever.Protocol.Types.{Frame, RoomListing, RoomJoin, RoomChatMessage}
use forever.Protocol.Reader.Ensures.{
  Ensures, Sound, Anything, Ensures-pure, Ensures-bind, Ensures-skip, Ensures-reject,
  Ensures-remaining, Ensures-read_string_lossy, Ensures-repeat_le, skip_rules, skip_u32, skip_if,
  skip_repeat, forget,
}
use forever.Protocol.Framing.Soundness.{decode-Sound}
use forever.Protocol.Fields.{bounded_count}
use forever.Protocol.Fields.Limits.{
  IsBounded, empty_or_over-IsBounded, IsUsername, IsRoomName, Ensures-read_network_username,
  Ensures-read_room_name, Ensures-bounded_count, Ensures-read_country,
}
use forever.Protocol.Rooms.{
  listings, parse_room_list, read_statistics, read_slot, Statistics, members_from,
  read_country_count, parse_join_room, parse_room_chat_message, parse_leave_room,
  parse_user_joined_room, parse_user_left_room,
}

pub record ListFits (rooms : List RoomListing) : Type 0 where
  pub at_most : length rooms ≤ max_room_list
  pub names : All (λ room. IsRoomName room.name) rooms

listings-ListFits :
    (index : ℕ) (names : List Bytes) (counts : List ℕ)
    → All IsRoomName names
    → (length (listings index names counts) ≡ length names)
      × All (λ room. IsRoomName room.name) (listings index names counts)
unfolding listings
listings-ListFits index [] counts h = (refl, tt)
listings-ListFits index (name ∷ names) counts (h, hs) =
    let (len, rest) = listings-ListFits (suc index) names counts hs in (ap suc len, (h, rest))

listed :
    (names : List Bytes) (counts : List ℕ)
    → (length names ≤ max_room_list) × All IsRoomName names
    → ListFits (listings 0 names counts)
listed names counts (few, good) =
    let (len, rest) = listings-ListFits 0 names counts good in
    record { at_most = omega arith; names = rest }

-- For a payload of bytes, `parse_room_list` never panics, and what it accepts is at most 5000
-- rooms, each with a valid name, whatever the counts behind the names.
pub parse_room_list-Sound :
    (frame : Frame) → IsBytes frame.payload → Sound ListFits (parse_room_list frame)
unfolding parse_room_list
parse_room_list-Sound frame = decode-Sound frame _ (
    Ensures-skip _ skip_u32 (λ rooms.
      Ensures-bind _ (Ensures-bounded_count rooms max_room_list _) (λ count few.
        Ensures-bind _ (Ensures-repeat_le max_room_list count few Ensures-read_room_name)
          (λ names good. Ensures-skip _ skip_u32 (λ n.
            Ensures-skip _ (forget (Ensures-bounded_count n max_room_list _)) (λ m.
              Ensures-skip _ (skip_repeat m skip_u32)
                (λ counts. Ensures-pure _ (listed names counts good))))))))

pub record JoinFits (join : RoomJoin) : Type 0 where
  pub room_name : IsRoomName join.room
  pub at_most : length join.members ≤ max_room_members
  pub usernames : All (λ member. IsUsername member.username) join.members

members_from-JoinFits :
    (index : ℕ) (usernames : List Bytes) (statuses : List ℕ) (statistics : List Statistics)
    (slots : List Bool) (countries : List (Option Bytes))
    → All IsUsername usernames
    → (length (members_from index usernames statuses statistics slots countries) ≡ length usernames)
      × All
          (λ member. IsUsername member.username)
          (members_from index usernames statuses statistics slots countries)
unfolding members_from
members_from-JoinFits index [] statuses statistics slots countries h = (refl, tt)
members_from-JoinFits index (username ∷ usernames) statuses statistics slots countries (h, hs) =
    let (len, rest) =
      members_from-JoinFits (suc index) usernames statuses statistics slots countries hs in
    (ap suc len, (h, rest))

joined :
    (room : Bytes) (usernames : List Bytes) (statuses : List ℕ) (statistics : List Statistics)
    (slots : List Bool) (countries : List (Option Bytes))
    → IsRoomName room
    → (length usernames ≤ max_room_members) × All IsUsername usernames
    → JoinFits (record {
      room = room;
      members = members_from 0 usernames statuses statistics slots countries;
    })
joined room usernames statuses statistics slots countries good (few, names) =
    let (len, rest) = members_from-JoinFits 0 usernames statuses statistics slots countries names in
    record { room_name = good; at_most = omega arith; usernames = rest }

Ensures-read_statistics : Ensures Anything read_statistics
unfolding read_statistics
Ensures-read_statistics = search skip_rules depth 12

Ensures-read_slot : Ensures Anything read_slot
unfolding read_slot
Ensures-read_slot = search skip_rules

Ensures-read_country_count : Ensures Anything read_country_count
unfolding read_country_count
Ensures-read_country_count =
    Ensures-skip _ skip_u32 (λ n. forget (Ensures-bounded_count n max_room_members _))

bounded : (n : ℕ) (kind : String) → Ensures Anything (bounded_count n max_room_members kind)
bounded n kind = forget (Ensures-bounded_count n max_room_members kind)

-- For a payload of bytes, `parse_join_room` never panics, and what it accepts is a valid room name
-- and at most 5000 members, each with a name of 1 to 100 bytes, however long the parallel arrays
-- of statuses, statistics, slots and countries are.
pub parse_join_room-Sound :
    (frame : Frame) → IsBytes frame.payload → Sound JoinFits (parse_join_room frame)
unfolding parse_join_room
parse_join_room-Sound frame = decode-Sound frame _ (
    Ensures-bind _ Ensures-read_room_name (λ room good. Ensures-skip _ skip_u32 (λ n.
      Ensures-bind _ (Ensures-bounded_count n max_room_members _) (λ count few.
        Ensures-bind _ (Ensures-repeat_le max_room_members count few Ensures-read_network_username)
          (λ usernames names. Ensures-skip _ skip_u32 (λ n. Ensures-skip _ (bounded n _) (λ n.
            Ensures-skip _ (skip_repeat n skip_u32) (λ statuses. Ensures-skip _ skip_u32 (λ n.
              Ensures-skip _ (bounded n _) (λ n.
                Ensures-skip _ (skip_repeat n Ensures-read_statistics) (λ statistics.
                  Ensures-skip _ skip_u32 (λ n. Ensures-skip _ (bounded n _) (λ n.
                    Ensures-skip _ (skip_repeat n Ensures-read_slot) (λ slots.
                      Ensures-skip _ Ensures-remaining (λ left.
                        Ensures-skip _ (skip_if _ 0 Ensures-read_country_count) (λ n.
                          Ensures-skip _ (skip_repeat n Ensures-read_country) (λ countries.
                            Ensures-pure _ (
                              joined room usernames statuses statistics slots countries good
                                names))))))))))))))))))

pub record ChatFits (chat : RoomChatMessage) : Type 0 where
  pub room_name : IsRoomName chat.room
  pub username : IsUsername chat.username
  pub message : IsBounded max_room_message_bytes chat.message

-- For a payload of bytes, `parse_room_chat_message` never panics, and what it accepts is a valid
-- room name, a user name of 1 to 100 bytes and a text of 1 to 4096 bytes.
pub parse_room_chat_message-Sound :
    (frame : Frame) → IsBytes frame.payload → Sound ChatFits (parse_room_chat_message frame)
unfolding parse_room_chat_message
parse_room_chat_message-Sound frame = decode-Sound frame _ (
    Ensures-bind _ Ensures-read_room_name (λ room good.
      Ensures-bind _ Ensures-read_network_username (λ username name.
        Ensures-skip _ Ensures-read_string_lossy (λ message.
          Ensures-bind _ (Ensures-reject _ _) (λ _ h. Ensures-pure _ (record {
            room_name = good;
            username = name;
            message = empty_or_over-IsBounded max_room_message_bytes message h;
          }))))))

pub parse_leave_room-Sound :
    (frame : Frame) → IsBytes frame.payload → Sound IsRoomName (parse_leave_room frame)
unfolding parse_leave_room
parse_leave_room-Sound frame = decode-Sound frame _ Ensures-read_room_name

-- For a payload of bytes, `parse_user_joined_room` never panics, and what it accepts is a valid
-- room name and a member with a name of 1 to 100 bytes.
pub parse_user_joined_room-Sound :
    (frame : Frame)
    → IsBytes frame.payload
    → Sound
        (λ joined. IsRoomName joined.0 × IsUsername joined.1.username)
        (parse_user_joined_room frame)
unfolding parse_user_joined_room
parse_user_joined_room-Sound frame = decode-Sound frame _ (
    Ensures-bind _ Ensures-read_room_name (λ room good.
      Ensures-bind _ Ensures-read_network_username
        (λ username name. search (skip_rules, Ensures-read_slot, Ensures-read_country) depth 24)))

pub parse_user_left_room-Sound :
    (frame : Frame)
    → IsBytes frame.payload
    → Sound (λ left. IsRoomName left.0 × IsUsername left.1) (parse_user_left_room frame)
unfolding parse_user_left_room
parse_user_left_room-Sound frame = decode-Sound frame _ (
    Ensures-bind _ Ensures-read_room_name (λ room good.
      Ensures-bind _ Ensures-read_network_username (λ username name. Ensures-pure _ (good, name))))

-- For payloads of bytes, the parsers of room messages never panic. What they accept is at most
-- 5000 rooms; a room with at most 5000 members, each with a name of 1 to 100 bytes, however long
-- the parallel arrays are; a chat message with a user name of 1 to 100 bytes and a text of 1 to
-- 4096; a member who joined or left with such a name. Every room has a name of 1 to 24 printable
-- ASCII characters, with no space at either end and no two in a row.
pub room_parsers-Sound :
    (list join chat arrival left : Frame)
    → All (λ f. IsBytes f.payload) (list ∷ join ∷ chat ∷ arrival ∷ left ∷ [])
    → Sound ListFits (parse_room_list list)
      × Sound JoinFits (parse_join_room join)
      × Sound ChatFits (parse_room_chat_message chat)
      × Sound
          (λ joined. IsRoomName joined.0 × IsUsername joined.1.username)
          (parse_user_joined_room arrival)
      × Sound (λ left. IsRoomName left.0 × IsUsername left.1) (parse_user_left_room left)
room_parsers-Sound list join chat arrival left (a, (b, (c, (d, (e, _))))) = (
  parse_room_list-Sound list a,
  parse_join_room-Sound join b,
  parse_room_chat_message-Sound chat c,
  parse_user_joined_room-Sound arrival d,
  parse_user_left_room-Sound left e,
)
