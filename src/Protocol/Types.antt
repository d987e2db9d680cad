-- ===== src/Protocol/Types.antt =====
-- The messages of protocol.rs as records. A `String` is its UTF-8 bytes, a `u8`, `u16`, `u32` or
-- `u64` a number, an `Ipv4Addr` its four octets.
use forever.Prelude.{ℕ, Bool, Option, List}
use forever.Bytes.{Bytes}

pub record Frame : Type 0 where
  pub code : ℕ
  pub payload : Bytes

pub data LoginResponse : Type 0 where
  -- greeting, supporter
  accepted : Bytes → Bool → LoginResponse
  -- reason, detail
  rejected : Bytes → Option Bytes → LoginResponse

pub record Ipv4Addr : Type 0 where
  pub a : ℕ
  pub b : ℕ
  pub c : ℕ
  pub d : ℕ

pub record ConnectToPeer : Type 0 where
  pub username : Bytes
  pub connection_type : Bytes
  pub address : Ipv4Addr
  pub port : ℕ
  pub token : ℕ

pub record PeerAddress : Type 0 where
  pub username : Bytes
  pub address : Ipv4Addr
  pub port : ℕ

pub record WatchedUser : Type 0 where
  pub username : Bytes
  pub exists : Bool
  pub status : ℕ
  pub average_speed : ℕ
  pub upload_count : ℕ
  pub shared_file_count : ℕ
  pub shared_directory_count : ℕ
  pub country_code : Option Bytes

pub record UserStats : Type 0 where
  pub username : Bytes
  pub average_speed : ℕ
  pub upload_count : ℕ
  pub shared_file_count : ℕ
  pub shared_directory_count : ℕ

pub record RoomListing : Type 0 where
  pub name : Bytes
  pub user_count : ℕ

pub record RoomMemberData : Type 0 where
  pub username : Bytes
  pub status : ℕ
  pub average_speed : ℕ
  pub upload_count : ℕ
  pub shared_file_count : ℕ
  pub shared_directory_count : ℕ
  pub slots_free : Bool
  pub country_code : Option Bytes

pub record RoomJoin : Type 0 where
  pub room : Bytes
  pub members : List RoomMemberData

pub record RoomChatMessage : Type 0 where
  pub room : Bytes
  pub username : Bytes
  pub message : Bytes

pub record UserInterests : Type 0 where
  pub username : Bytes
  pub likes : List Bytes
  pub hates : List Bytes

pub record UserInfoResponse : Type 0 where
  pub description : Bytes
  pub picture : Option Bytes
  pub upload_slots : ℕ
  pub queue_size : ℕ
  pub slots_free : Bool
  pub upload_permission : Option ℕ

pub record ParentCandidate : Type 0 where
  pub username : Bytes
  pub address : Ipv4Addr
  pub port : ℕ

pub record DistributedFrame : Type 0 where
  pub code : ℕ
  pub payload : Bytes

pub record DistributedSearch : Type 0 where
  pub username : Bytes
  pub token : ℕ
  pub query : Bytes

pub record PrivateMessage : Type 0 where
  pub id : ℕ
  pub timestamp_seconds : ℕ
  pub username : Bytes
  pub message : Bytes
  pub is_new : Bool

pub data PeerInit : Type 0 where
  -- token
  pierce_firewall : ℕ → PeerInit
  -- username, connection type, token
  peer : Bytes → Bytes → ℕ → PeerInit

pub record TransferRequest : Type 0 where
  pub direction : ℕ
  pub token : ℕ
  pub filename : Bytes
  pub size_bytes : Option ℕ

pub record SearchFile : Type 0 where
  pub filename : Bytes
  pub size_bytes : ℕ
  pub extension : Bytes
  pub bitrate : Option ℕ
  pub duration_seconds : Option ℕ
  pub vbr : Option Bool
  pub sample_rate : Option ℕ
  pub bit_depth : Option ℕ
  pub is_private : Bool

pub record SearchResponse : Type 0 where
  pub username : Bytes
  pub token : ℕ
  pub files : List SearchFile
  pub slot_free : Bool
  pub average_speed : ℕ
  pub queue_length : ℕ

pub record FolderFile : Type 0 where
  pub filename : Bytes
  pub size_bytes : ℕ
  pub extension : Bytes
  pub bitrate : Option ℕ
  pub duration_seconds : Option ℕ
  pub vbr : Option Bool
  pub sample_rate : Option ℕ
  pub bit_depth : Option ℕ

pub record FolderListing : Type 0 where
  pub directory : Bytes
  pub files : List FolderFile

pub record FolderContentsResponse : Type 0 where
  pub token : ℕ
  pub requested_folder : Bytes
  pub folders : List FolderListing

pub record ShareListing : Type 0 where
  pub directory : Bytes
  pub files : List FolderFile
  pub is_private : Bool

pub record SharedFileListResponse : Type 0 where
  pub directories : List ShareListing
