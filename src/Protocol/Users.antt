-- ===== src/Protocol/Users.antt =====
-- The parsers of protocol.rs for what the server and a peer say about a user.
pub mod Limits
pub mod RoundTrip
use forever.Prelude.{
  ℕ, Bool, true, false, not, ◌&&◌, Option, none, some, leb, ltb, ◌==◌, if◌then◌else◌, length,
}
use forever.Bytes.{Bytes}
use forever.Protocol.Error.{Result, invalid_user_info}
use forever.Protocol.Codes.{
  watch_user_code, user_status_code, user_stats_code, user_interests_code, user_info_response_code,
  max_profile_description_bytes, max_profile_picture_bytes,
}
use forever.Protocol.Types.{Frame, WatchedUser, UserStats, UserInterests, UserInfoResponse}
use forever.Protocol.Reader.{
  Reader, pure, ◌>>=◌, ◌>>◌, reject, remaining, read_bytes, read_bool, read_u32, read_string_lossy,
  read_if,
}
use forever.Protocol.Framing.{decode}
use forever.Protocol.Fields.{read_network_username, read_country, read_interests}

-- The rest of `parse_watch_user` for a user that exists.
watch_existing : Bytes → Reader WatchedUser
unfolding read_country
watch_existing username = do
  status ← read_u32
  average_speed ← read_u32
  upload_count ← read_u32
  _ ← read_u32
  shared_file_count ← read_u32
  shared_directory_count ← read_u32
  left ← remaining
  country_code ← read_if (not (status == 0) && leb 4 left) read_country none
  pure (record {
    username = username;
    exists = true;
    status = status;
    average_speed = average_speed;
    upload_count = upload_count;
    shared_file_count = shared_file_count;
    shared_directory_count = shared_directory_count;
    country_code = country_code;
  })

pub parse_watch_user : Frame → Result WatchedUser
unfolding watch_existing
parse_watch_user frame = decode frame watch_user_code do
  username ← read_network_username
  exists ← read_bool
  if exists
      then watch_existing username
      else pure (record {
        username = username;
        exists = false;
        status = 0;
        average_speed = 0;
        upload_count = 0;
        shared_file_count = 0;
        shared_directory_count = 0;
        country_code = none;
      })

pub parse_user_status : Frame → Result (Bytes × ℕ × Bool)
parse_user_status frame = decode frame user_status_code do
  username ← read_network_username
  status ← read_u32
  privileged ← read_bool
  pure (username, status, privileged)

pub parse_user_stats : Frame → Result UserStats
parse_user_stats frame = decode frame user_stats_code do
  username ← read_network_username
  average_speed ← read_u32
  upload_count ← read_u32
  _ ← read_u32
  shared_file_count ← read_u32
  shared_directory_count ← read_u32
  pure (record {
    username = username;
    average_speed = average_speed;
    upload_count = upload_count;
    shared_file_count = shared_file_count;
    shared_directory_count = shared_directory_count;
  })

pub parse_user_interests : Frame → Result UserInterests
parse_user_interests frame = decode frame user_interests_code do
  username ← read_network_username
  likes ← read_interests "liked interests"
  hates ← read_interests "hated interests"
  pure (record { username = username; likes = likes; hates = hates })

read_picture : Reader (Option Bytes)
read_picture = do
  length ← read_u32
  reject (ltb max_profile_picture_bytes length) invalid_user_info
  bytes ← read_bytes length
  pure (some bytes)

-- `(reader.remaining() >= 4).then(|| reader.read_u32()).transpose()?`
read_permission : Reader (Option ℕ)
read_permission = do value ← read_u32; pure (some value)

pub parse_user_info_response : Frame → Result UserInfoResponse
unfolding read_picture read_permission
parse_user_info_response frame = decode frame user_info_response_code do
  description ← read_string_lossy
  reject (ltb max_profile_description_bytes (length description)) invalid_user_info
  has_picture ← read_bool
  picture ← read_if has_picture read_picture none
  upload_slots ← read_u32
  queue_size ← read_u32
  slots_free ← read_bool
  left ← remaining
  upload_permission ← read_if (leb 4 left) read_permission none
  pure (record {
    description = description;
    picture = picture;
    upload_slots = upload_slots;
    queue_size = queue_size;
    slots_free = slots_free;
    upload_permission = upload_permission;
  })
