-- ===== src/Protocol/Rooms.antt =====
-- The parsers of protocol.rs for public chat rooms.
pub mod Limits
use forever.Prelude.{
  ℕ, suc, Bool, false, Option, none, some, List, [], ◌∷◌, leb, ltb, ◌==◌, if◌then◌else◌, length,
  get_or, is_empty, ◌||◌,
}
use forever.Bytes.{Bytes}
use forever.Protocol.Error.{Result, invalid_room_message}
use forever.Protocol.Codes.{
  room_list_code, join_room_code, say_chatroom_code, leave_room_code, user_joined_room_code,
  user_left_room_code, max_room_list, max_room_members, max_room_message_bytes,
}
use forever.Protocol.Types.{Frame, RoomListing, RoomMemberData, RoomJoin, RoomChatMessage}
use forever.Protocol.Reader.{
  Reader, pure, ◌>>=◌, ◌>>◌, reject, remaining, read_u32, read_string_lossy, repeat, read_if,
}
use forever.Protocol.Framing.{decode}
use forever.Protocol.Fields.{
  read_network_username, read_room_name, bounded_count, read_country, empty_or_over,
}

-- `names.into_iter().enumerate().map(…)`: the count at a name's index, 0 past the counts.
listings : ℕ → List Bytes → List ℕ → List RoomListing
listings index [] counts = []
listings index (name ∷ names) counts =
    record { name = name; user_count = get_or counts index 0 } ∷ listings (suc index) names counts

pub parse_room_list : Frame → Result (List RoomListing)
unfolding listings
parse_room_list frame = decode frame room_list_code do
  rooms ← read_u32
  room_count ← bounded_count rooms max_room_list "rooms"
  names ← repeat room_count read_room_name
  n ← read_u32
  count_count ← bounded_count n max_room_list "room counts"
  counts ← repeat count_count read_u32
  pure (listings 0 names counts)

record Statistics : Type 0 where
  average_speed : ℕ
  upload_count : ℕ
  shared_file_count : ℕ
  shared_directory_count : ℕ

read_statistics : Reader Statistics
read_statistics = do
  average_speed ← read_u32
  upload_count ← read_u32
  _ ← read_u32
  shared_file_count ← read_u32
  shared_directory_count ← read_u32
  pure (record {
    average_speed = average_speed;
    upload_count = upload_count;
    shared_file_count = shared_file_count;
    shared_directory_count = shared_directory_count;
  })

no_statistics : Statistics
no_statistics = record {
  average_speed = 0;
  upload_count = 0;
  shared_file_count = 0;
  shared_directory_count = 0;
}

read_slot : Reader Bool
read_slot = do value ← read_u32; pure (value == 0)

-- The parallel arrays of a joined room, by a user's index.
member : ℕ → Bytes → List ℕ → List Statistics → List Bool → List (Option Bytes) → RoomMemberData
unfolding no_statistics
member index username statuses statistics slots countries =
    let s = get_or statistics index no_statistics in
    record {
      username = username;
      status = get_or statuses index 0;
      average_speed = s.average_speed;
      upload_count = s.upload_count;
      shared_file_count = s.shared_file_count;
      shared_directory_count = s.shared_directory_count;
      slots_free = get_or slots index false;
      country_code = get_or countries index none;
    }

members_from :
    ℕ
    → List Bytes
    → List ℕ
    → List Statistics
    → List Bool
    → List (Option Bytes)
    → List RoomMemberData
unfolding member
members_from index [] statuses statistics slots countries = []
members_from index (username ∷ usernames) statuses statistics slots countries =
    member index username statuses statistics slots countries
    ∷ members_from (suc index) usernames statuses statistics slots countries

read_country_count : Reader ℕ
read_country_count = do n ← read_u32; bounded_count n max_room_members "room countries"

pub parse_join_room : Frame → Result RoomJoin
unfolding read_statistics read_slot read_country members_from read_country_count
parse_join_room frame = decode frame join_room_code do
  room ← read_room_name
  n ← read_u32
  user_count ← bounded_count n max_room_members "room users"
  usernames ← repeat user_count read_network_username
  n ← read_u32
  status_count ← bounded_count n max_room_members "room statuses"
  statuses ← repeat status_count read_u32
  n ← read_u32
  stats_count ← bounded_count n max_room_members "room statistics"
  statistics ← repeat stats_count read_statistics
  n ← read_u32
  slots_count ← bounded_count n max_room_members "room slot states"
  slots ← repeat slots_count read_slot
  left ← remaining
  country_count ← read_if (leb 4 left) read_country_count 0
  countries ← repeat country_count read_country
  pure (record {
    room = room;
    members = members_from 0 usernames statuses statistics slots countries;
  })

pub parse_room_chat_message : Frame → Result RoomChatMessage
parse_room_chat_message frame = decode frame say_chatroom_code do
  room ← read_room_name
  username ← read_network_username
  message ← read_string_lossy
  reject (empty_or_over max_room_message_bytes message) invalid_room_message
  pure (record { room = room; username = username; message = message })

pub parse_leave_room : Frame → Result Bytes
parse_leave_room frame = decode frame leave_room_code read_room_name

pub parse_user_joined_room : Frame → Result (Bytes × RoomMemberData)
unfolding read_slot read_country
parse_user_joined_room frame = decode frame user_joined_room_code do
  room ← read_room_name
  username ← read_network_username
  status ← read_u32
  average_speed ← read_u32
  upload_count ← read_u32
  _ ← read_u32
  shared_file_count ← read_u32
  shared_directory_count ← read_u32
  slots_free ← read_slot
  country_code ← read_country
  pure (
    room,
    record {
      username = username;
      status = status;
      average_speed = average_speed;
      upload_count = upload_count;
      shared_file_count = shared_file_count;
      shared_directory_count = shared_directory_count;
      slots_free = slots_free;
      country_code = country_code;
    },
  )

pub parse_user_left_room : Frame → Result (Bytes × Bytes)
parse_user_left_room frame =
    decode frame user_left_room_code
      do room ← read_room_name; username ← read_network_username; pure (room, username)
