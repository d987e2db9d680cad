-- ===== src/Uploads/Types.antt =====
-- src-tauri/src/connection/uploads.rs: the records of the upload queue. A `PathBuf` and a `String`
-- are their bytes; a token is a 32-bit number and a time a number of milliseconds.
use forever.Prelude.{ℕ, Bool, true, false, Option, List}
use forever.Bytes.{Bytes, bytes_eq}
use forever.Text.{to_ascii_lowercase}

pub data UploadStatus : Type 0 where
  queued : UploadStatus
  connecting : UploadStatus
  uploading : UploadStatus
  completed : UploadStatus
  failed : UploadStatus
  cancelled : UploadStatus

abbrev pub occupies_slot : UploadStatus → Bool
occupies_slot UploadStatus.queued = false
occupies_slot UploadStatus.connecting = true
occupies_slot UploadStatus.uploading = true
occupies_slot UploadStatus.completed = false
occupies_slot UploadStatus.failed = false
occupies_slot UploadStatus.cancelled = false

abbrev pub finished : UploadStatus → Bool
finished UploadStatus.queued = false
finished UploadStatus.connecting = false
finished UploadStatus.uploading = false
finished UploadStatus.completed = true
finished UploadStatus.failed = true
finished UploadStatus.cancelled = true

-- `status == UploadStatus::Queued` and the other comparisons.
abbrev pub is_queued : UploadStatus → Bool
is_queued UploadStatus.queued = true
is_queued UploadStatus.connecting = false
is_queued UploadStatus.uploading = false
is_queued UploadStatus.completed = false
is_queued UploadStatus.failed = false
is_queued UploadStatus.cancelled = false

abbrev pub is_connecting : UploadStatus → Bool
is_connecting UploadStatus.queued = false
is_connecting UploadStatus.connecting = true
is_connecting UploadStatus.uploading = false
is_connecting UploadStatus.completed = false
is_connecting UploadStatus.failed = false
is_connecting UploadStatus.cancelled = false

abbrev pub is_uploading : UploadStatus → Bool
is_uploading UploadStatus.queued = false
is_uploading UploadStatus.connecting = false
is_uploading UploadStatus.uploading = true
is_uploading UploadStatus.completed = false
is_uploading UploadStatus.failed = false
is_uploading UploadStatus.cancelled = false

abbrev pub is_completed : UploadStatus → Bool
is_completed UploadStatus.queued = false
is_completed UploadStatus.connecting = false
is_completed UploadStatus.uploading = false
is_completed UploadStatus.completed = true
is_completed UploadStatus.failed = false
is_completed UploadStatus.cancelled = false

abbrev pub is_failed : UploadStatus → Bool
is_failed UploadStatus.queued = false
is_failed UploadStatus.connecting = false
is_failed UploadStatus.uploading = false
is_failed UploadStatus.completed = false
is_failed UploadStatus.failed = true
is_failed UploadStatus.cancelled = false

abbrev pub is_cancelled : UploadStatus → Bool
is_cancelled UploadStatus.queued = false
is_cancelled UploadStatus.connecting = false
is_cancelled UploadStatus.uploading = false
is_cancelled UploadStatus.completed = false
is_cancelled UploadStatus.failed = false
is_cancelled UploadStatus.cancelled = true

pub record UploadSnapshot : Type 0 where
  pub id : Bytes
  pub username : Bytes
  pub remote_filename : Bytes
  pub filename : Bytes
  pub size_bytes : ℕ
  pub transferred_bytes : ℕ
  pub speed_bytes_per_second : ℕ
  pub eta_seconds : Option ℕ
  pub status : UploadStatus
  pub queue_position : Option ℕ
  pub error : Option Bytes
  pub created_at_ms : ℕ
  pub updated_at_ms : ℕ
  pub local_path : Bytes
  pub connection_token : Option ℕ
  pub file_connection_token : Option ℕ
  pub transfer_token : Option ℕ
  pub control_claimed : Bool
  pub file_claimed : Bool

pub record UploadTicket : Type 0 where
  pub id : Bytes
  pub username : Bytes
  pub remote_filename : Bytes
  pub size_bytes : ℕ
  pub local_path : Bytes
  pub connection_token : ℕ
  pub transfer_token : ℕ

pub record UploadQueueSnapshot : Type 0 where
  pub uploads : List UploadSnapshot
  pub active_count : ℕ
  pub queued_count : ℕ
  pub session_uploaded_bytes : ℕ
  pub persistence_error : Option Bytes

-- local_shares.rs: what the index knows of a shared file.
pub record IndexedFile : Type 0 where
  pub remote_filename : Bytes
  pub filename : Bytes
  pub size_bytes : ℕ
  pub local_path : Bytes

pub data UploadError : Type 0 where
  invalid_peer : UploadError
  queue_full : UploadError
  too_many_files : UploadError
  too_many_megabytes : UploadError
  not_found : UploadError
  changed_file : UploadError
  -- the I/O error's text
  io : Bytes → UploadError

-- `a.eq_ignore_ascii_case(b)`
abbrev pub eq_ignore_ascii_case : Bytes → Bytes → Bool
eq_ignore_ascii_case a b = bytes_eq (to_ascii_lowercase a) (to_ascii_lowercase b)

-- `Result<A, UploadError>`
pub data Answer (A : Type 0) : Type 0 where
  ok : A → Answer A
  err : UploadError → Answer A
