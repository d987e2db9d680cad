-- ===== src/Examples/Listings.antt =====
-- Compressed lists, with a codec that stores the bytes as they are.
use forever.Prelude.{
  ℕ, zero, suc, ◌≤◌, ◌≡◌, refl, sym, ap, subst, Bool, true, false, Option, none, some, [], ◌∷◌,
  length, take, all, ltb, if◌then◌else◌, arith, length-take, and_parts,
}
use forever.Bytes.{Bytes, IsBytes, le_bytes}
use forever.Bytes.Laws.{all-IsBytes}
use forever.Text.Utf8.{is_utf8, IsText}
use forever.Protocol.Error.{ok}
use forever.Protocol.Codes.{
  shared_file_list_response_code, file_search_response_code, folder_contents_response_code,
}
use forever.Protocol.Types.{Frame, SearchFile}
use forever.Protocol.Writer.Layout.{string_bytes}
use forever.Protocol.Reader.Ensures.{Sound}
use forever.Protocol.Framing.{read_peer_frame}
use forever.Protocol.Framing.Delivery.{delivered}
use forever.Protocol.Listings.Zlib.{Zlib, IsLossless}
use forever.Protocol.Listings.Layout.{IsSendable, file_bytes}
use forever.Protocol.Listings.Write.{file_search_response_frame, folder_file}
use forever.Protocol.Listings.Read.{
  parse_search_response, parse_folder_contents_response, parse_shared_file_list_response,
}
use forever.Protocol.Listings.RoundTrip.{
  search_layout, search_result, parse_search_response-file_search_response_frame,
}
use forever.Protocol.Listings.Limits.{ContentsFit}
use forever.Protocol.Listings.Shares.{YieldsBytes, SharesAreFew, list_parsers-Sound}

abbrev are_bytes : Bytes → Bool
are_bytes bs = all (λ b. ltb b 256) bs

abbrev checked : Bytes → Option Bytes
checked bs = if are_bytes bs then some bs else none

abbrev stored : Zlib
stored = record { deflate = checked; inflate = λ n packed. checked (take n packed) }

are_bytes-take : (n : ℕ) (bs : Bytes) → are_bytes bs ≡ true → are_bytes (take n bs) ≡ true
are_bytes-take zero bs h = refl
are_bytes-take (suc n) [] h = refl
are_bytes-take (suc n) (b ∷ bs) h =
    let (first, rest) = and_parts (ltb b 256) (are_bytes bs) h in
    rw (first, are_bytes-take n bs rest) refl

checked_lem : (bs out : Bytes) → checked bs ≡ some out → (bs ≡ out) × (are_bytes bs ≡ true)
checked_lem bs out h = go (are_bytes bs) refl h
  where
    go :
        (b : Bool)
        → are_bytes bs ≡ b
        → (if b then some bs else none) ≡ some out
        → (bs ≡ out) × (are_bytes bs ≡ true)
    go true e h = (cc, e)
    go false e h = cc

stored-IsLossless : IsLossless stored
stored-IsLossless = record {
  inflate-deflate = λ n plain packed h.
      let (same, good) = checked_lem plain packed h in
      rw (sym same, are_bytes-take n plain good) refl;
  length-inflate = λ n packed plain h.
      let (same, good) = checked_lem (take n packed) plain h in
      omega (arith, length-take n packed, ap length same);
}

stored-YieldsBytes : YieldsBytes stored
stored-YieldsBytes = record {
  inflate-IsBytes = λ n packed plain h.
      let (same, good) = checked_lem (take n packed) plain h in
      subst IsBytes same (all-IsBytes (take n packed) good);
}

-- "a/b.Mp3", 3 MiB, 320 kbit/s, not locked.
abbrev song : SearchFile
song = record {
  filename = b'a' ∷ b'/' ∷ b'b' ∷ b'.' ∷ b'M' ∷ b'p' ∷ b'3' ∷ [];
  size_bytes = 3_145_728;
  extension = [];
  bitrate = some 320;
  duration_seconds = some 200;
  vbr = some false;
  sample_rate = none;
  bit_depth = none;
  is_private = false;
}

song-IsSendable : IsSendable (folder_file song)
unfolding is_utf8 folder_file
song-IsSendable = record {
  filename_text = refl;
  filename_size = omega arith;
  extension_text = refl;
  extension_size = omega arith;
  size_fits = omega arith;
  bitrate_fits = omega arith;
  duration_fits = omega arith;
  sample_rate_fits = tt;
  bit_depth_fits = tt;
}

abbrev ann : Bytes
ann = b'a' ∷ b'n' ∷ b'n' ∷ []

ann-IsText : IsText ann
unfolding is_utf8
ann-IsText = refl

abbrev layout : Bytes
layout = search_layout ann 77 (song ∷ []) true 500_000 0

layout_fits : length layout ≤ 100
unfolding string_bytes file_bytes le_bytes folder_file
layout_fits = omega arith

layout_stored : checked layout ≡ some layout
unfolding string_bytes file_bytes le_bytes folder_file
layout_stored = refl

parse_search_response-file_search_response_frame_example :
    delivered read_peer_frame
      (parse_search_response stored)
      (file_search_response_frame stored ann 77 (song ∷ []) true 500_000 0)
      []
    ≡ ok (search_result ann 77 (song ∷ []) true 500_000 0, [])
parse_search_response-file_search_response_frame_example =
    parse_search_response-file_search_response_frame stored stored-IsLossless ann 77 (song ∷ [])
      true 500_000 0 layout [] ann-IsText (omega arith) (omega arith) (omega arith)
      (song-IsSendable, tt) (omega arith) (omega arith) (omega (arith, layout_fits)) layout_stored
      (omega (arith, layout_fits))

-- One directory "ann" with one file of the extension "ann" and no attributes.
abbrev text : Bytes → Bytes
text rest = 3 ∷ 0 ∷ 0 ∷ 0 ∷ b'a' ∷ b'n' ∷ b'n' ∷ rest

abbrev one : Bytes → Bytes
one rest = 1 ∷ 0 ∷ 0 ∷ 0 ∷ rest

abbrev none_left : Bytes → Bytes
none_left rest = 0 ∷ 0 ∷ 0 ∷ 0 ∷ rest

abbrev file : Bytes → Bytes
file rest = 1 ∷ text (one (none_left (text (none_left rest))))

abbrev shares : Frame
shares = record {
  code = shared_file_list_response_code;
  payload = one (text (one (file (none_left (none_left [])))));
}

abbrev response : Frame
response = record {
  code = file_search_response_code;
  payload = text (one (one (file (1 ∷ one (one [])))));
}

abbrev contents : Frame
contents = record {
  code = folder_contents_response_code;
  payload = one (text (one (text (one (file [])))));
}

list_parsers-Sound_example :
    Sound (λ response. length response.files ≤ 40_000) (parse_search_response stored response)
    × Sound ContentsFit (parse_folder_contents_response stored contents)
    × Sound SharesAreFew (parse_shared_file_list_response stored shares)
list_parsers-Sound_example = list_parsers-Sound stored stored-YieldsBytes response contents shares
