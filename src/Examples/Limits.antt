-- ===== src/Examples/Limits.antt =====
-- Small messages of the server and of a distributed parent.
use forever.Prelude.{ℕ, refl, [], ◌∷◌, ◌≤◌, length, All}
use forever.Bytes.{Bytes}
use forever.Bytes.Laws.{all-IsBytes}
use forever.Protocol.Codes.{
  max_possible_parents, max_excluded_phrases, max_excluded_phrase_bytes, user_info_response_code,
  watch_user_code, user_status_code, user_stats_code, user_interests_code, room_list_code,
  say_chatroom_code, user_joined_room_code, user_left_room_code, message_user_code,
  excluded_search_phrases_code, possible_parents_code, distributed_branch_root_code, join_room_code,
  privileged_users_code, embedded_message_code, distributed_search_code,
}
use forever.Protocol.Types.{Frame, DistributedFrame}
use forever.Protocol.Reader.Ensures.{Sound}
use forever.Protocol.Fields.Limits.{IsUsername, IsRoomName}
use forever.Protocol.Users.{
  parse_watch_user, parse_user_interests, parse_user_info_response, parse_user_status,
  parse_user_stats,
}
use forever.Protocol.Users.Limits.{user_parsers-Sound, HasInterests, ProfileFits}
use forever.Protocol.Rooms.{
  parse_room_list, parse_join_room, parse_room_chat_message, parse_user_joined_room,
  parse_user_left_room,
}
use forever.Protocol.Rooms.Limits.{room_parsers-Sound, ListFits, JoinFits, ChatFits}
use forever.Protocol.Server.{
  parse_private_message, parse_privileged_users, parse_excluded_search_phrases,
}
use forever.Protocol.Server.Limits.{server_parsers-Sound, MessageFits}
use forever.Protocol.Distributed.{
  parse_possible_parents, parse_distributed_search, parse_distributed_branch_root,
  parse_embedded_distributed_search,
}
use forever.Protocol.Distributed.Limits.{distributed_parsers-Sound, ParentFits, SearchFits}

abbrev u32 : ℕ → Bytes → Bytes
u32 n rest = n ∷ 0 ∷ 0 ∷ 0 ∷ rest

-- The string "ann" on the wire.
abbrev ann : Bytes → Bytes
ann rest = u32 3 (b'a' ∷ b'n' ∷ b'n' ∷ rest)

abbrev user_ann : Frame
user_ann = record {
  code = watch_user_code;
  payload = ann (1 ∷ u32 2 (u32 3 (u32 4 (u32 0 (u32 5 (u32 6 (u32 2 (b'd' ∷ b'e' ∷ []))))))));
}

abbrev status_of_ann : Frame
status_of_ann = record { code = user_status_code; payload = ann (u32 2 (1 ∷ [])) }

abbrev stats_of_ann : Frame
stats_of_ann = record {
  code = user_stats_code;
  payload = ann (u32 2 (u32 3 (u32 0 (u32 4 (u32 5 [])))));
}

abbrev interests_of_ann : Frame
interests_of_ann = record { code = user_interests_code; payload = ann (u32 1 (ann (u32 0 []))) }

abbrev profile_of_ann : Frame
profile_of_ann = record {
  code = user_info_response_code;
  payload = ann (1 ∷ u32 1 (7 ∷ u32 2 (u32 0 (1 ∷ []))));
}

abbrev joined_by_ann : Frame
joined_by_ann = record {
  code = join_room_code;
  payload = ann (
      u32 1
        (ann (u32 1 (u32 2 (u32 1 (u32 0 (u32 0 (u32 0 (u32 0 (u32 0 (u32 1 (u32 0 []))))))))))));
}

abbrev rooms : Frame
rooms = record { code = room_list_code; payload = u32 1 (ann (u32 1 (u32 7 []))) }

abbrev chat_of_ann : Frame
chat_of_ann = record { code = say_chatroom_code; payload = ann (ann (ann [])) }

abbrev arrival_of_ann : Frame
arrival_of_ann = record {
  code = user_joined_room_code;
  payload = ann (ann (u32 2 (u32 3 (u32 4 (u32 0 (u32 5 (u32 6 (u32 0 (u32 0 [])))))))));
}

abbrev ann_left : Frame
ann_left = record { code = user_left_room_code; payload = ann (ann []) }

abbrev privileged_ann : Frame
privileged_ann = record { code = privileged_users_code; payload = u32 1 (ann []) }

abbrev message_of_ann : Frame
message_of_ann = record { code = message_user_code; payload = u32 1 (u32 2 (ann (ann (1 ∷ [])))) }

abbrev phrases : Frame
phrases = record { code = excluded_search_phrases_code; payload = u32 1 (ann []) }

abbrev search_of_ann : DistributedFrame
search_of_ann = record { code = distributed_search_code; payload = u32 b'1' (ann (u32 5 (ann []))) }

abbrev embedded_of_ann : Frame
embedded_of_ann = record {
  code = embedded_message_code;
  payload = distributed_search_code ∷ u32 b'1' (ann (u32 5 (ann [])));
}

-- A parent on 127.0.0.1, port 2234.
abbrev parents : Frame
parents = record {
  code = possible_parents_code;
  payload = u32 1 (ann (1 ∷ 0 ∷ 0 ∷ 127 ∷ 186 ∷ 8 ∷ 0 ∷ 0 ∷ []));
}

abbrev root_ann : DistributedFrame
root_ann = record { code = distributed_branch_root_code; payload = ann [] }

user_parsers-Sound_example :
    Sound (λ user. IsUsername user.username) (parse_watch_user user_ann)
    × Sound (λ status. IsUsername status.0) (parse_user_status status_of_ann)
    × Sound (λ stats. IsUsername stats.username) (parse_user_stats stats_of_ann)
    × Sound HasInterests (parse_user_interests interests_of_ann)
    × Sound ProfileFits (parse_user_info_response profile_of_ann)
user_parsers-Sound_example =
    user_parsers-Sound user_ann status_of_ann stats_of_ann interests_of_ann profile_of_ann (
      all-IsBytes user_ann.payload refl,
      (
        all-IsBytes status_of_ann.payload refl,
        (
          all-IsBytes stats_of_ann.payload refl,
          (
            all-IsBytes interests_of_ann.payload refl,
            (all-IsBytes profile_of_ann.payload refl, tt),
          ),
        ),
      ),
    )

room_parsers-Sound_example :
    Sound ListFits (parse_room_list rooms)
    × Sound JoinFits (parse_join_room joined_by_ann)
    × Sound ChatFits (parse_room_chat_message chat_of_ann)
    × Sound
        (λ joined. IsRoomName joined.0 × IsUsername joined.1.username)
        (parse_user_joined_room arrival_of_ann)
    × Sound (λ left. IsRoomName left.0 × IsUsername left.1) (parse_user_left_room ann_left)
room_parsers-Sound_example =
    room_parsers-Sound rooms joined_by_ann chat_of_ann arrival_of_ann ann_left (
      all-IsBytes rooms.payload refl,
      (
        all-IsBytes joined_by_ann.payload refl,
        (
          all-IsBytes chat_of_ann.payload refl,
          (all-IsBytes arrival_of_ann.payload refl, (all-IsBytes ann_left.payload refl, tt)),
        ),
      ),
    )

server_parsers-Sound_example :
    Sound MessageFits (parse_private_message message_of_ann)
    × Sound
        (λ users. (length users ≤ 100_000) × All IsUsername users)
        (parse_privileged_users privileged_ann)
    × Sound
        (λ phrases.
          (length phrases ≤ max_excluded_phrases)
          × All (λ phrase. length phrase ≤ max_excluded_phrase_bytes) phrases)
        (parse_excluded_search_phrases phrases)
server_parsers-Sound_example = server_parsers-Sound message_of_ann privileged_ann phrases (
  all-IsBytes message_of_ann.payload refl,
  (all-IsBytes privileged_ann.payload refl, (all-IsBytes phrases.payload refl, tt)),
)

distributed_parsers-Sound_example :
    Sound
      (λ found. (length found ≤ max_possible_parents) × All ParentFits found)
      (parse_possible_parents parents)
    × Sound SearchFits (parse_embedded_distributed_search embedded_of_ann)
    × Sound SearchFits (parse_distributed_search search_of_ann)
    × Sound IsUsername (parse_distributed_branch_root root_ann)
distributed_parsers-Sound_example =
    distributed_parsers-Sound parents embedded_of_ann search_of_ann root_ann
      (all-IsBytes parents.payload refl, (all-IsBytes embedded_of_ann.payload refl, tt))
      (all-IsBytes search_of_ann.payload refl, (all-IsBytes root_ann.payload refl, tt))
