-- ===== src/Protocol/Listings/Write.antt =====
-- `file_search_response_frame`, `folder_contents_response_frame` and
-- `shared_file_list_response_frame`.
use forever.Prelude.{ℕ, Bool, not, List, [], ◌∷◌, ◌++◌, length, keep}
use forever.Bytes.{Bytes}
use forever.Protocol.Error.{Result, ok, ◌>>=◌}
use forever.Protocol.Codes.{
  file_search_response_code, folder_contents_response_code, shared_file_list_response_code,
}
use forever.Protocol.Types.{SearchFile, FolderFile, FolderListing, ShareListing}
use forever.Protocol.Writer.{push_u32, push_string, checked_count}
use forever.Protocol.Framing.{encode_message}
use forever.Protocol.Listings.Zlib.{Zlib, or_io}
use forever.Protocol.Reader.Reads.{bool_byte}
use forever.Protocol.Listings.Entry.{push_folder_file}

unfoldable pub encode_compressed_message : Zlib → ℕ → Bytes → Result Bytes
encode_compressed_message z code payload = do
  packed ← or_io (z.deflate payload)
  encode_message code packed

-- The clone of a `SearchFile` that is pushed.
unfoldable pub folder_file : SearchFile → FolderFile
folder_file file = record {
  filename = file.filename;
  size_bytes = file.size_bytes;
  extension = file.extension;
  bitrate = file.bitrate;
  duration_seconds = file.duration_seconds;
  vbr = file.vbr;
  sample_rate = file.sample_rate;
  bit_depth = file.bit_depth;
}

-- `for file in files { push_folder_file(payload, file)?; }`
unfoldable pub push_folder_files : Bytes → List FolderFile → Result Bytes
push_folder_files payload [] = ok payload
push_folder_files payload (file ∷ files) = do
  payload ← push_folder_file payload file
  push_folder_files payload files

unfoldable pub push_search_loop : Bytes → List SearchFile → Result Bytes
push_search_loop payload [] = ok payload
push_search_loop payload (file ∷ files) = do
  payload ← push_folder_file payload (folder_file file)
  push_search_loop payload files

unfoldable pub push_search_files : Bytes → List SearchFile → Result Bytes
push_search_files payload files = do
  count ← checked_count (length files)
  push_search_loop (push_u32 payload count) files

abbrev pub is_open : SearchFile → Bool
is_open file = not file.is_private

abbrev pub is_locked : SearchFile → Bool
is_locked file = file.is_private

unfoldable pub file_search_response_frame :
    Zlib → Bytes → ℕ → List SearchFile → Bool → ℕ → ℕ → Result Bytes
file_search_response_frame z username token files slot_free average_speed queue_length = do
  payload ← push_string [] username
  payload ← push_search_files (push_u32 payload token) (keep is_open files)
  let payload = payload ++ bool_byte slot_free ∷ []
  let payload = push_u32 (push_u32 (push_u32 payload average_speed) queue_length) 0
  payload ← push_search_files payload (keep is_locked files)
  encode_compressed_message z file_search_response_code payload

-- A folder's name, the number of its files, and the files.
unfoldable pub push_folder : Bytes → Bytes → List FolderFile → Result Bytes
push_folder payload directory files = do
  payload ← push_string payload directory
  count ← checked_count (length files)
  push_folder_files (push_u32 payload count) files

unfoldable pub push_folders : Bytes → List FolderListing → Result Bytes
push_folders payload [] = ok payload
push_folders payload (folder ∷ folders) = do
  payload ← push_folder payload folder.directory folder.files
  push_folders payload folders

unfoldable pub folder_contents_response_frame : Zlib → ℕ → Bytes → List FolderListing → Result Bytes
folder_contents_response_frame z token requested_folder folders = do
  payload ← push_string (push_u32 [] token) requested_folder
  count ← checked_count (length folders)
  payload ← push_folders (push_u32 payload count) folders
  encode_compressed_message z folder_contents_response_code payload

unfoldable pub push_share_loop : Bytes → List ShareListing → Result Bytes
push_share_loop payload [] = ok payload
push_share_loop payload (directory ∷ directories) = do
  payload ← push_folder payload directory.directory directory.files
  push_share_loop payload directories

unfoldable pub push_share_directories : Bytes → List ShareListing → Result Bytes
push_share_directories payload directories = do
  count ← checked_count (length directories)
  push_share_loop (push_u32 payload count) directories

abbrev pub is_public_share : ShareListing → Bool
is_public_share directory = not directory.is_private

abbrev pub is_private_share : ShareListing → Bool
is_private_share directory = directory.is_private

unfoldable pub shared_file_list_response_frame : Zlib → List ShareListing → Result Bytes
shared_file_list_response_frame z directories = do
  payload ← push_share_directories [] (keep is_public_share directories)
  payload ← push_share_directories (push_u32 payload 0) (keep is_private_share directories)
  encode_compressed_message z shared_file_list_response_code payload
