-- ===== src/Protocol/Listings/Layout.antt =====
-- A file of a list on the wire: what `push_folder_file` writes and `read_folder_file` makes of it.
use forever.Prelude.{
  ℕ, suc, ◌<◌, ◌≤◌, ◌^◌, ◌≡◌, ap, ◌∙◌, sym, subst, Bool, true, false, Option, none, some, List, [],
  ◌∷◌, ◌++◌, append_assoc, append-nil, length, All, arith, le→ltb_false,
}
use forever.Bytes.{Bytes, le_bytes}
use forever.Text.{replace_slashes}
use forever.Text.Utf8.{IsText}
use forever.Protocol.Error.{ok}
use forever.Protocol.Types.{FolderFile}
use forever.Protocol.Writer.{push_u32, push_u64}
use forever.Protocol.Writer.Layout.{string_bytes, push_string_lem, checked_count_lem}
use forever.Protocol.Codes.{max_file_attributes}
use forever.Protocol.Reader.Reads.{
  Reads, Reads-pure, Reads-bind, Reads-bind_pure, Reads-reject, Reads-read_u8, Reads-read_u32,
  Reads-read_u64, Reads-read_string_lossy,
}
use forever.Protocol.Peer.RoundTrip.{Reads-read_path}
use forever.Protocol.Listings.Entry.{
  Attributes, no_attributes, set_attribute, read_attributes, extension_of, read_folder_file,
  attributes_of, attribute, vbr_bit, push_attributes, push_folder_file,
}

-- The values fit the words that hold them, and the strings are text.
abbrev pub Fits : Option ℕ → Type 0
Fits none = Unit
Fits (some v) = v < 2 ^ 32

pub record IsSendable (file : FolderFile) : Type 0 where
  pub filename_text : IsText file.filename
  pub filename_size : length file.filename < 2 ^ 32
  pub extension_text : IsText file.extension
  pub extension_size : length file.extension < 2 ^ 32
  pub size_fits : file.size_bytes < 2 ^ 64
  pub bitrate_fits : Fits file.bitrate
  pub duration_fits : Fits file.duration_seconds
  pub sample_rate_fits : Fits file.sample_rate
  pub bit_depth_fits : Fits file.bit_depth

abbrev pub attribute_bytes : List (ℕ × ℕ) → Bytes
attribute_bytes [] = []
attribute_bytes ((code, value) ∷ rest) =
    le_bytes 4 code ++ (le_bytes 4 value ++ attribute_bytes rest)

unfoldable pub file_bytes : FolderFile → Bytes
file_bytes file =
    (1 ∷ [])
    ++ (string_bytes file.filename
        ++ (le_bytes 8 file.size_bytes
            ++ (string_bytes file.extension
                ++ (le_bytes 4 (length (attributes_of file))
                    ++ attribute_bytes (attributes_of file)))))

-- What the receiver keeps: backslashes for slashes, and a lower-case extension, taken from the
-- name if none was sent.
unfoldable pub received : FolderFile → FolderFile
received file = record file {
  filename = replace_slashes file.filename;
  extension = extension_of file.extension (replace_slashes file.filename);
}

push_attributes_lem :
    (payload : Bytes) (attributes : List (ℕ × ℕ))
    → push_attributes payload attributes ≡ payload ++ attribute_bytes attributes
unfolding push_attributes push_u32
push_attributes_lem payload [] = sym (append-nil payload)
push_attributes_lem payload ((code, value) ∷ rest) =
    push_attributes_lem (payload ++ le_bytes 4 code ++ le_bytes 4 value) rest ∙ simp append_assoc

attribute-le :
    (code : ℕ) (o : Option ℕ) (rest : List (ℕ × ℕ))
    → length (attribute code o rest) ≤ suc (length rest)
attribute-le code none rest = omega arith
attribute-le code (some v) rest = omega arith

pub attributes_of-le : (file : FolderFile) → length (attributes_of file) ≤ 5
attributes_of-le file = omega (
  arith,
  attribute-le 0 file.bitrate _,
  attribute-le 1 file.duration_seconds _,
  attribute-le 2 (vbr_bit file.vbr) _,
  attribute-le 4 file.sample_rate _,
  attribute-le 5 file.bit_depth [],
)

-- `push_folder_file` appends the file's bytes.
pub push_folder_file_lem :
    (payload : Bytes) (file : FolderFile)
    → IsSendable file
    → push_folder_file payload file ≡ ok (payload ++ file_bytes file)
unfolding push_folder_file file_bytes push_u32 push_u64
push_folder_file_lem payload file h =
    let few : length (attributes_of file) < 2 ^ 32 = omega (arith, attributes_of-le file) in
    rw
      (
        push_string_lem (payload ++ 1 ∷ []) file.filename h.filename_size,
        push_string_lem
            (payload ++ 1 ∷ [] ++ string_bytes file.filename ++ le_bytes 8 file.size_bytes)
            file.extension h.extension_size,
        checked_count_lem (length (attributes_of file)) few,
        push_attributes_lem,
      )
      (ap ok (simp append_assoc))

-- The variables after the loop over the attributes.
abbrev set_all : List (ℕ × ℕ) → Attributes → Attributes
set_all [] found = found
set_all ((code, value) ∷ rest) found = set_all rest (set_attribute code value found)

abbrev AllFit : List (ℕ × ℕ) → Type 0
AllFit attributes = All (λ (code, value). (code < 2 ^ 32) × (value < 2 ^ 32)) attributes

Reads-read_attributes :
    (attributes : List (ℕ × ℕ)) (found : Attributes)
    → AllFit attributes
    → Reads
        (read_attributes (length attributes) found)
        (attribute_bytes attributes)
        (set_all attributes found)
unfolding read_attributes
Reads-read_attributes [] found h = Reads-pure found
Reads-read_attributes ((code, value) ∷ rest) found (h, hs) =
    Reads-bind _ (Reads-read_u32 code h.0) (
      Reads-bind _ (Reads-read_u32 value h.1)
        (Reads-read_attributes rest (set_attribute code value found) hs))

attribute-AllFit :
    (code : ℕ) (o : Option ℕ) (rest : List (ℕ × ℕ))
    → code < 2 ^ 32
    → Fits o
    → AllFit rest
    → AllFit (attribute code o rest)
attribute-AllFit code none rest hc h hs = hs
attribute-AllFit code (some v) rest hc h hs = ((hc, h), hs)

vbr_bit-Fits : (o : Option Bool) → Fits (vbr_bit o)
vbr_bit-Fits none = tt
vbr_bit-Fits (some true) = omega arith
vbr_bit-Fits (some false) = omega arith

attributes_of-AllFit : (file : FolderFile) → IsSendable file → AllFit (attributes_of file)
attributes_of-AllFit file h = attribute-AllFit 0 file.bitrate _ (omega arith) h.bitrate_fits (
    attribute-AllFit 1 file.duration_seconds _ (omega arith) h.duration_fits (
      attribute-AllFit 2 (vbr_bit file.vbr) _ (omega arith) (vbr_bit-Fits file.vbr) (
        attribute-AllFit 4 file.sample_rate _ (omega arith) h.sample_rate_fits
          (attribute-AllFit 5 file.bit_depth [] (omega arith) h.bit_depth_fits tt))))

attributes_from : Option ℕ → Option ℕ → Option Bool → Option ℕ → Option ℕ → Attributes
attributes_from a b c d e = record {
  bitrate = a;
  duration_seconds = b;
  vbr = c;
  sample_rate = d;
  bit_depth = e;
}

-- Writing down the values that are there and reading them back gives the same five values.
set_all-attribute :
    (a b : Option ℕ) (c : Option Bool) (d e : Option ℕ)
    → set_all
        (attribute 0 a (attribute 1 b (attribute 2 (vbr_bit c) (attribute 4 d (attribute 5 e [])))))
        no_attributes
      ≡ attributes_from a b c d e
unfolding set_attribute attributes_from
set_all-attribute a b c d e = ground arith

-- `read_folder_file` reads the bytes of one file, whatever stands behind them.
pub Reads-read_folder_file :
    (file : FolderFile) → IsSendable file → Reads read_folder_file (file_bytes file) (received file)
unfolding read_folder_file file_bytes received attributes_from
Reads-read_folder_file file h =
    let few : length (attributes_of file) ≤ 5 = attributes_of-le file in
    let found : set_all (attributes_of file) no_attributes
        ≡ attributes_from file.bitrate file.duration_seconds file.vbr file.sample_rate
            file.bit_depth =
      set_all-attribute file.bitrate file.duration_seconds file.vbr file.sample_rate
        file.bit_depth in
    Reads-bind _ (Reads-read_u8 1) (
      Reads-bind _ (Reads-read_path file.filename h.filename_size h.filename_text) (
        Reads-bind _ (Reads-read_u64 file.size_bytes h.size_fits) (
          Reads-bind _ (Reads-read_string_lossy file.extension h.extension_size h.extension_text) (
            Reads-bind _ (Reads-read_u32 (length (attributes_of file)) (omega arith)) (
              Reads-bind _
                (Reads-reject _ _
                  (le→ltb_false (length (attributes_of file)) max_file_attributes (omega arith)))
                (Reads-bind_pure _ (
                  subst
                    (λ a.
                      Reads (read_attributes (length (attributes_of file)) no_attributes)
                        (attribute_bytes (attributes_of file)) a)
                    found
                    (Reads-read_attributes (attributes_of file) no_attributes
                      (attributes_of-AllFit file h)))))))))
