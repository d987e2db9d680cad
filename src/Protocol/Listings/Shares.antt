-- ===== src/Protocol/Listings/Shares.antt =====
-- The limits on a list of shares, and those of all three lists, for the packed messages of
-- protocol.rs.
use forever.Prelude.{
  ℕ, zero, suc, ◌+◌, ◌≤◌, ◌≡◌, refl, ap, Bool, true, false, some, List, [], ◌∷◌, ◌++◌, length,
  length-append, arith, ltb, ltb_false→le, Option-cases, inl, inr, if◌then◌else◌,
}
use forever.Bytes.{Bytes, IsBytes}
use forever.Protocol.Error.{ok, err, decompressed_payload_too_large}
use forever.Protocol.Codes.{max_share_directories, max_share_files_total}
use forever.Protocol.Types.{Frame, ShareListing, SharedFileListResponse}
use forever.Protocol.Reader.{Reader, evaluate}
use forever.Protocol.Reader.Ensures.{
  Ensures, Sound, Ensures-pure, Ensures-bind, Ensures-skip, Ensures-reject, Ensures-repeat,
  Ensures-weaken, Ensures-evaluate, skip_u32,
}
use forever.Protocol.Framing.Soundness.{expect_code-Sound, Sound-bind}
use forever.Protocol.Listings.Zlib.{Zlib, decompress}
use forever.Protocol.Listings.Limits.{
  Ensures-read_path, Ensures-read_folder_file, saturated-le, ContentsFit, Ensures-folder_contents,
  Ensures-search_response,
}
use forever.Protocol.Listings.Read.{
  decode_packed, parse_search_response, parse_folder_contents_response, read_share_directory,
  read_share_loop, read_share_directories, shared_file_list, parse_shared_file_list_response,
}

-- The total of the files of all directories.
abbrev pub share_files : List ShareListing → ℕ
share_files [] = 0
share_files (directory ∷ directories) = length directory.files + share_files directories

pub share_files-append :
    (xs ys : List ShareListing) → share_files (xs ++ ys) ≡ share_files xs + share_files ys
share_files-append [] ys = omega arith
share_files-append (x ∷ xs) ys = omega (arith, share_files-append xs ys)

abbrev Counts : ℕ → ShareListing × ℕ → Type 0
Counts total (directory, total') =
    (total' ≡ total + length directory.files) × (total' ≤ max_share_files_total)

Ensures-read_share_directory :
    (b : Bool) (total : ℕ) → Ensures (Counts total) (read_share_directory b total)
unfolding read_share_directory
Ensures-read_share_directory b total = Ensures-skip _ Ensures-read_path (λ directory.
    Ensures-skip _ skip_u32 (λ count. Ensures-bind _ (Ensures-reject _ _) (λ _ h.
      Ensures-bind _ (Ensures-repeat count Ensures-read_folder_file) (λ files counted.
        let fits : total + count ≤ max_share_files_total =
          saturated-le total count max_share_files_total (omega arith) h in
        let len : length files ≡ count = counted.0 in Ensures-pure _ (omega arith, omega arith)))))

abbrev SharesFit : ℕ → ℕ → List ShareListing × ℕ → Type 0
SharesFit n total (directories, total') =
    (length directories ≡ n)
    × (total' ≡ total + share_files directories)
    × (total' ≤ max_share_files_total)

Ensures-read_share_loop :
    (b : Bool) (n total : ℕ)
    → total ≤ max_share_files_total
    → Ensures (SharesFit n total) (read_share_loop b n total)
unfolding read_share_loop
Ensures-read_share_loop b zero total h = Ensures-pure _ (refl, omega arith, h)
Ensures-read_share_loop b (suc n) total h =
    Ensures-bind _ (Ensures-read_share_directory b total) (λ (directory, total') counts.
      Ensures-bind _ (Ensures-read_share_loop b n total' counts.1) (λ (directories, total'') fit.
        Ensures-pure _ (ap suc fit.0, omega (arith, fit.1, counts.0), fit.2)))

abbrev HalfFits : ℕ → List ShareListing × ℕ → Type 0
HalfFits total (directories, total') =
    (length directories ≤ max_share_directories)
    × (total' ≡ total + share_files directories)
    × (total' ≤ max_share_files_total)

Ensures-read_share_directories :
    (b : Bool) (total : ℕ)
    → total ≤ max_share_files_total
    → Ensures (HalfFits total) (read_share_directories b total)
unfolding read_share_directories
Ensures-read_share_directories b total small = Ensures-skip _ skip_u32 (λ count.
    Ensures-bind _ (Ensures-reject _ _) (λ _ h.
      Ensures-weaken
        (λ (directories, total') fit.
          (omega (arith, fit.0, ltb_false→le count max_share_directories h), fit.1, fit.2))
        (Ensures-read_share_loop b count total small)))

pub record SharesAreFew (response : SharedFileListResponse) : Type 0 where
  pub at_most : length response.directories ≤ 200_000
  pub in_total : share_files response.directories ≤ max_share_files_total

few_shares :
    (open_half locked : List ShareListing) (total total' : ℕ)
    → HalfFits 0 (open_half, total)
    → HalfFits total (locked, total')
    → SharesAreFew (record { directories = open_half ++ locked })
few_shares open_half locked total total' (n, sum, fits) (n', sum', fits') = record {
  at_most = omega (arith, length-append open_half locked);
  in_total = omega (arith, share_files-append open_half locked);
}

Ensures-shared_file_list : Ensures SharesAreFew shared_file_list
unfolding shared_file_list
Ensures-shared_file_list =
    Ensures-bind _ (Ensures-read_share_directories false 0 (omega arith)) (λ (open_half, total) fit.
      Ensures-skip _ skip_u32 (λ _.
        Ensures-bind _ (Ensures-read_share_directories true total fit.2) (λ (locked, total') fit'.
          Ensures-pure _ (few_shares open_half locked total total' fit fit'))))

-- What flate2 returns is bytes.
pub record YieldsBytes (z : Zlib) : Type 0 where
  pub inflate-IsBytes :
      (n : ℕ) (packed plain : Bytes) → z.inflate n packed ≡ some plain → IsBytes plain

module _ (z : Zlib) (yields : YieldsBytes z) where
  decompress-IsBytes : (maximum : ℕ) (packed : Bytes) → Sound IsBytes (decompress z maximum packed)
  unfolding decompress
  decompress-IsBytes maximum packed = elim (Option-cases (z.inflate (maximum + 1) packed)) [
    | inl e ↦ rw (e, decompress) tt
    | inr (plain, e) ↦
        rw (e, decompress)
          (checked (ltb maximum (length plain)) plain (yields.inflate-IsBytes _ packed plain e))
  ]
    where
      checked :
          (b : Bool) (plain : Bytes)
          → IsBytes plain
          → Sound IsBytes (if b then err decompressed_payload_too_large else ok plain)
      checked true plain h = tt
      checked false plain h = h

  decode_packed-Sound :
      {A : Type 0} (P : A → Type 0) (frame : Frame) (code maximum : ℕ) (body : Reader A)
      → Ensures P body
      → Sound P (decode_packed z frame code maximum body)
  unfolding decode_packed
  decode_packed-Sound P frame code maximum body h = expect_code-Sound P frame code _ (
      Sound-bind IsBytes P (decompress z maximum frame.payload) (λ payload. evaluate body payload)
        (decompress-IsBytes maximum frame.payload)
        (λ payload bytes. Ensures-evaluate payload h bytes))

  -- For every codec whose output is bytes, `parse_search_response` never panics, and what it
  -- accepts is an answer of at most 40,000 files.
  pub parse_search_response-Sound :
      (frame : Frame)
      → Sound (λ response. length response.files ≤ 40_000) (parse_search_response z frame)
  unfolding parse_search_response
  parse_search_response-Sound frame = decode_packed-Sound _ frame _ _ _ Ensures-search_response

  -- For every codec whose output is bytes, `parse_folder_contents_response` never panics, and what
  -- it accepts is at most 5000 folders of at most 20,000 files each, and at most 50,000 files
  -- together.
  pub parse_folder_contents_response-Sound :
      (frame : Frame) → Sound ContentsFit (parse_folder_contents_response z frame)
  unfolding parse_folder_contents_response
  parse_folder_contents_response-Sound frame =
      decode_packed-Sound _ frame _ _ _ Ensures-folder_contents

  -- For every codec whose output is bytes, `parse_shared_file_list_response` never panics, and
  -- what it accepts is at most 200,000 directories with at most 500,000 files together.
  pub parse_shared_file_list_response-Sound :
      (frame : Frame) → Sound SharesAreFew (parse_shared_file_list_response z frame)
  unfolding parse_shared_file_list_response
  parse_shared_file_list_response-Sound frame =
      decode_packed-Sound _ frame _ _ _ Ensures-shared_file_list

  -- For every codec whose output is bytes and every frame, the parsers of compressed lists never
  -- panic. What they accept is a search response of at most 40,000 files, at most 5000 folders of
  -- at most 20,000 files each and 50,000 together, and shares of at most 200,000 directories with
  -- at most 500,000 files together.
  pub list_parsers-Sound :
      (response contents shares : Frame)
      → Sound (λ response. length response.files ≤ 40_000) (parse_search_response z response)
        × Sound ContentsFit (parse_folder_contents_response z contents)
        × Sound SharesAreFew (parse_shared_file_list_response z shares)
  list_parsers-Sound response contents shares = (
    parse_search_response-Sound response,
    parse_folder_contents_response-Sound contents,
    parse_shared_file_list_response-Sound shares,
  )
