-- ===== src/Protocol/Fields.antt =====
-- The checked fields that several parsers of protocol.rs share.
pub mod Limits
use forever.Prelude.{
  ℕ, Bool, true, false, not, ◌&&◌, ◌||◌, Option, none, some, String, List, [], ◌∷◌, leb, ltb, ◌==◌,
  if◌then◌else◌, length, is_empty, all,
}
use forever.Bytes.{Bytes}
use forever.Text.{
  to_ascii_uppercase, is_ascii_alphabetic, is_ascii_graphic, is_ascii, starts_with_space,
  ends_with_space, contains_two_spaces,
}
use forever.Text.Trim.{trim}
use forever.Protocol.Error.{invalid_user_data, invalid_room_message, invalid_count}
use forever.Protocol.Codes.{
  max_network_username_bytes, max_room_name_bytes, max_user_interests, max_user_interest_bytes,
}
use forever.Protocol.Reader.{Reader, pure, ◌>>=◌, ◌>>◌, reject, read_u32, read_string_lossy, repeat}

-- `text.is_empty() || text.len() > maximum`
abbrev pub empty_or_over : ℕ → Bytes → Bool
empty_or_over maximum text = is_empty text || ltb maximum (length text)

unfoldable pub read_network_username : Reader Bytes
read_network_username = do
  username ← read_string_lossy
  reject (empty_or_over max_network_username_bytes username) invalid_user_data
  pure username

unfoldable pub is_room_name : Bytes → Bool
unfolding starts_with_space ends_with_space contains_two_spaces
is_room_name room =
    not (is_empty room)
    && (leb (length room) max_room_name_bytes
        && (all is_ascii room
            && (not (starts_with_space room)
                && (not (ends_with_space room)
                    && (not (contains_two_spaces room)
                        && all (λ byte. is_ascii_graphic byte || byte == b' ') room)))))

unfoldable pub read_room_name : Reader Bytes
read_room_name = do
  room ← read_string_lossy
  reject (not (is_room_name room)) invalid_room_message
  pure room

unfoldable pub bounded_count : ℕ → ℕ → String → Reader ℕ
bounded_count count maximum kind = do
  reject (ltb maximum count) (invalid_count kind count)
  pure count

unfoldable pub normalize_country_code : Bytes → Option Bytes
unfolding trim to_ascii_uppercase
normalize_country_code value =
    let value' = to_ascii_uppercase (trim value) in
    if (length value' == 2) && all is_ascii_alphabetic value' then some value' else none

-- `normalize_country_code(reader.read_string_lossy()?)`
unfoldable pub read_country : Reader (Option Bytes)
read_country = do value ← read_string_lossy; pure (normalize_country_code value)

-- `read_interests`; its loop body, and the loop.
read_interest : Reader Bytes
read_interest = do
  interest ← read_string_lossy
  reject (empty_or_over max_user_interest_bytes interest) invalid_user_data
  pure interest

unfoldable pub read_interests : String → Reader (List Bytes)
unfolding read_interest
read_interests kind = do
  count ← read_u32
  reject (ltb max_user_interests count) (invalid_count kind count)
  repeat count read_interest
