-- ===== src/Protocol/Listings/Read.antt =====
-- `parse_search_response`, `parse_folder_contents_response` and `parse_shared_file_list_response`.
use forever.Prelude.{ℕ, zero, suc, ◌+◌, ◌-◌, Bool, true, false, List, [], ◌∷◌, ◌++◌, leb, ltb, min}
use forever.Protocol.Error.{Result, invalid_count, ◌>>=◌ as ◌andthen◌}
use forever.Protocol.Codes.{
  file_search_response_code, folder_contents_response_code, shared_file_list_response_code,
  max_decompressed_search_length, max_decompressed_folder_length, max_decompressed_share_length,
  max_results_per_response, max_folders_per_response, max_files_per_folder, max_folder_files_total,
  max_share_directories, max_share_files_total,
}
use forever.Protocol.Types.{
  Frame, SearchFile, SearchResponse, FolderListing, FolderContentsResponse, ShareListing,
  SharedFileListResponse,
}
use forever.Protocol.Reader.{
  Reader, pure, evaluate, ◌>>=◌, ◌>>◌, reject, remaining, read_bool, read_u32, read_string_lossy,
  repeat, read_if, usize_range,
}
use forever.Protocol.Framing.{expect_code}
use forever.Protocol.Peer.{read_path}
use forever.Protocol.Listings.Zlib.{Zlib, decompress}
use forever.Protocol.Listings.Entry.{read_folder_file, read_search_file}

-- `a.saturating_add(b)` on a `usize`
abbrev pub saturating_add : ℕ → ℕ → ℕ
saturating_add a b = min (a + b) (usize_range - 1)

-- The code is checked, the payload decompressed, and then read.
unfoldable pub decode_packed {ℓ} : {A : Type ℓ} → Zlib → Frame → ℕ → ℕ → Reader A → Result A
decode_packed z frame code maximum body = expect_code frame code andthen λ _.
    decompress z maximum frame.payload andthen λ payload. evaluate body payload

unfoldable pub read_search_files : Bool → Reader (List SearchFile)
read_search_files is_private = do
  count ← read_u32
  reject (ltb max_results_per_response count) (invalid_count "search results" count)
  repeat count (read_search_file is_private)

unfoldable pub search_response : Reader SearchResponse
search_response = do
  username ← read_string_lossy
  token ← read_u32
  files ← read_search_files false
  slot_free ← read_bool
  average_speed ← read_u32
  queue_length ← read_u32
  left ← remaining
  _ ← read_if (leb 4 left) read_u32 0
  left ← remaining
  locked ← read_if (leb 4 left) (read_search_files true) []
  pure (record {
    username = username;
    token = token;
    files = files ++ locked;
    slot_free = slot_free;
    average_speed = average_speed;
    queue_length = queue_length;
  })

unfoldable pub parse_search_response : Zlib → Frame → Result SearchResponse
parse_search_response z frame =
    decode_packed z frame file_search_response_code max_decompressed_search_length search_response

-- One folder, with `total_files` after it.
unfoldable pub read_folder : ℕ → Reader (FolderListing × ℕ)
read_folder total_files = do
  directory ← read_path
  file_count ← read_u32
  reject (ltb max_files_per_folder file_count) (invalid_count "folder files" file_count)
  let total = saturating_add total_files file_count
  reject (ltb max_folder_files_total total) (invalid_count "folder files" total)
  files ← repeat file_count read_folder_file
  pure (record { directory = directory; files = files }, total)

unfoldable pub read_folders : ℕ → ℕ → Reader (List FolderListing)
read_folders zero total_files = pure []
read_folders (suc n) total_files = do
  (folder, total) ← read_folder total_files
  folders ← read_folders n total
  pure (folder ∷ folders)

unfoldable pub folder_contents : Reader FolderContentsResponse
folder_contents = do
  token ← read_u32
  requested_folder ← read_path
  folder_count ← read_u32
  reject (ltb max_folders_per_response folder_count) (invalid_count "folders" folder_count)
  folders ← read_folders folder_count 0
  pure (record { token = token; requested_folder = requested_folder; folders = folders })

unfoldable pub parse_folder_contents_response : Zlib → Frame → Result FolderContentsResponse
parse_folder_contents_response z frame =
    decode_packed z frame folder_contents_response_code max_decompressed_folder_length
      folder_contents

-- One round of the loop of `read_share_directories`, with `total_files` after it.
unfoldable pub read_share_directory : Bool → ℕ → Reader (ShareListing × ℕ)
read_share_directory is_private total_files = do
  directory ← read_path
  file_count ← read_u32
  let total = saturating_add total_files file_count
  reject (ltb max_share_files_total total) (invalid_count "shared files" total)
  files ← repeat file_count read_folder_file
  pure (record { directory = directory; files = files; is_private = is_private }, total)

unfoldable pub read_share_loop : Bool → ℕ → ℕ → Reader (List ShareListing × ℕ)
read_share_loop is_private zero total_files = pure ([], total_files)
read_share_loop is_private (suc n) total_files = do
  (directory, total) ← read_share_directory is_private total_files
  (directories, total') ← read_share_loop is_private n total
  pure (directory ∷ directories, total')

unfoldable pub read_share_directories : Bool → ℕ → Reader (List ShareListing × ℕ)
read_share_directories is_private total_files = do
  count ← read_u32
  reject (ltb max_share_directories count) (invalid_count "shared directories" count)
  read_share_loop is_private count total_files

unfoldable pub shared_file_list : Reader SharedFileListResponse
shared_file_list = do
  (directories, total_files) ← read_share_directories false 0
  _ ← read_u32
  (locked, _) ← read_share_directories true total_files
  pure (record { directories = directories ++ locked })

unfoldable pub parse_shared_file_list_response : Zlib → Frame → Result SharedFileListResponse
parse_shared_file_list_response z frame =
    decode_packed z frame shared_file_list_response_code max_decompressed_share_length
      shared_file_list
