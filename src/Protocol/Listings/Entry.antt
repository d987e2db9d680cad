-- ===== src/Protocol/Listings/Entry.antt =====
-- One file of a list: `read_folder_file`, its copies inside `read_search_files` and
-- `parse_folder_contents_response`, and `push_folder_file`.
use forever.Prelude.{
  ℕ, zero, suc, Bool, true, false, not, Option, none, some, List, [], ◌∷◌, ◌++◌, ltb, ◌==◌,
  if◌then◌else◌, length, is_empty,
}
use forever.Bytes.{Bytes}
use forever.Text.{to_ascii_lowercase, after_last_dot}
use forever.Protocol.Error.{Result, ok, invalid_count, ◌>>=◌ as ◌andthen◌}
use forever.Protocol.Codes.{max_file_attributes}
use forever.Protocol.Types.{FolderFile, SearchFile}
use forever.Protocol.Writer.{push_u32, push_u64, push_string, checked_count}
use forever.Protocol.Reader.{
  Reader, pure, ◌>>=◌, ◌>>◌, reject, read_u8, read_u32, read_u64, read_string_lossy,
}
use forever.Protocol.Peer.{read_path}

-- The five variables that the loop over the attributes sets.
pub record Attributes : Type 0 where
  pub bitrate : Option ℕ
  pub duration_seconds : Option ℕ
  pub vbr : Option Bool
  pub sample_rate : Option ℕ
  pub bit_depth : Option ℕ

abbrev pub no_attributes : Attributes
no_attributes = record {
  bitrate = none;
  duration_seconds = none;
  vbr = none;
  sample_rate = none;
  bit_depth = none;
}

unfoldable pub set_attribute : ℕ → ℕ → Attributes → Attributes
set_attribute attribute value found =
    if attribute == 0
    then record found { bitrate = some value }
    else if attribute == 1
    then record found { duration_seconds = some value }
    else if attribute == 2
    then record found { vbr = some (not (value == 0)) }
    else if attribute == 4
    then record found { sample_rate = some value }
    else if attribute == 5
    then record found { bit_depth = some value }
    else found

unfoldable pub read_attributes : ℕ → Attributes → Reader Attributes
unfolding set_attribute
read_attributes zero found = pure found
read_attributes (suc n) found = do
  attribute ← read_u32
  value ← read_u32
  read_attributes n (set_attribute attribute value found)

-- The extension that was sent, or the one of the name.
unfoldable pub extension_of : Bytes → Bytes → Bytes
unfolding to_ascii_lowercase after_last_dot
extension_of supplied filename =
    if is_empty supplied
    then (elim (after_last_dot filename) [
      | some extension ↦ to_ascii_lowercase extension
      | none ↦ []
    ])
    else to_ascii_lowercase supplied

unfoldable pub read_folder_file : Reader FolderFile
read_folder_file = do
  _ ← read_u8
  filename ← read_path
  size_bytes ← read_u64
  supplied ← read_string_lossy
  count ← read_u32
  reject (ltb max_file_attributes count) (invalid_count "file attributes" count)
  found ← read_attributes count no_attributes
  pure (record {
    filename = filename;
    size_bytes = size_bytes;
    extension = extension_of supplied filename;
    bitrate = found.bitrate;
    duration_seconds = found.duration_seconds;
    vbr = found.vbr;
    sample_rate = found.sample_rate;
    bit_depth = found.bit_depth;
  })

-- The loop of `read_search_files` reads the same entry into a `SearchFile`.
unfoldable pub search_file : Bool → FolderFile → SearchFile
search_file is_private file = record {
  filename = file.filename;
  size_bytes = file.size_bytes;
  extension = file.extension;
  bitrate = file.bitrate;
  duration_seconds = file.duration_seconds;
  vbr = file.vbr;
  sample_rate = file.sample_rate;
  bit_depth = file.bit_depth;
  is_private = is_private;
}

unfoldable pub read_search_file : Bool → Reader SearchFile
read_search_file is_private = do file ← read_folder_file; pure (search_file is_private file)

-- `u32::from(value)`
abbrev pub bit : Bool → ℕ
bit true = 1
bit false = 0

-- `option.map(|value| (code, value))`, put before what follows.
abbrev pub attribute : ℕ → Option ℕ → List (ℕ × ℕ) → List (ℕ × ℕ)
attribute code (some value) rest = (code, value) ∷ rest
attribute code none rest = rest

abbrev pub vbr_bit : Option Bool → Option ℕ
vbr_bit (some b) = some (bit b)
vbr_bit none = none

-- The array of attributes, flattened.
abbrev pub attributes_of : FolderFile → List (ℕ × ℕ)
attributes_of file = attribute 0 file.bitrate (
    attribute 1 file.duration_seconds (
      attribute 2 (vbr_bit file.vbr)
        (attribute 4 file.sample_rate (attribute 5 file.bit_depth []))))

unfoldable pub push_attributes : Bytes → List (ℕ × ℕ) → Bytes
push_attributes payload [] = payload
push_attributes payload ((code, value) ∷ rest) =
    push_attributes (push_u32 (push_u32 payload code) value) rest

unfoldable pub push_folder_file : Bytes → FolderFile → Result Bytes
push_folder_file payload file = push_string (payload ++ 1 ∷ []) file.filename andthen λ payload.
    push_string (push_u64 payload file.size_bytes) file.extension andthen λ payload.
    checked_count (length (attributes_of file)) andthen λ count.
    ok (push_attributes (push_u32 payload count) (attributes_of file))
