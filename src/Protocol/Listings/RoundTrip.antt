-- ===== src/Protocol/Listings/RoundTrip.antt =====
-- Search results from the peer that answers to the peer that asked.
use forever.Prelude.{
  ℕ, ◌+◌, ◌≤◌, ◌<◌, ◌^◌, ◌≡◌, ap, sym, Bool, true, false, some, List, [], ◌∷◌, ◌++◌, append_assoc,
  append-nil, length, length-append, map, keep, All, All-imp, All-keep, arith, le→ltb_false,
}
use forever.Bytes.{Bytes, le_bytes}
use forever.Bytes.Laws.{length-le_bytes}
use forever.Text.Utf8.{IsText}
use forever.Protocol.Error.{ok}
use forever.Protocol.Codes.{
  file_search_response_code, max_results_per_response, max_decompressed_search_length,
  max_peer_message_length,
}
use forever.Protocol.Types.{SearchFile, SearchResponse}
use forever.Protocol.Writer.{push_u32}
use forever.Protocol.Writer.Layout.{
  string_bytes, push_string_lem, checked_count_lem, length-string_bytes,
}
use forever.Protocol.Reader.Reads.{
  Reads, Ends, Reads-bind, Reads-bind_pure, Reads-reject, Reads-repeat, Ends-bind, Ends-pure,
  Ends-if_left, Reads-read_u32, Reads-read_bool, Reads-read_string_lossy, all_bytes, bool_byte,
}
use forever.Protocol.Framing.{read_peer_frame}
use forever.Protocol.Framing.Delivery.{delivered}
use forever.Protocol.Listings.Zlib.{Zlib, IsLossless}
use forever.Protocol.Listings.Entry.{search_file, read_search_file}
use forever.Protocol.Listings.Layout.{
  IsSendable, file_bytes, received, push_folder_file_lem, Reads-read_folder_file,
}
use forever.Protocol.Listings.Packed.{deliver_packed}
use forever.Protocol.Listings.Read.{read_search_files, search_response, parse_search_response}
use forever.Protocol.Listings.Write.{
  folder_file, push_search_loop, push_search_files, file_search_response_frame, is_open, is_locked,
  encode_compressed_message,
}

abbrev sent_bytes : SearchFile → Bytes
sent_bytes file = file_bytes (folder_file file)

-- A file as the asking peer lists it.
unfoldable pub listed : Bool → SearchFile → SearchFile
listed is_private file = search_file is_private (received (folder_file file))

abbrev AllSendable : List SearchFile → Type 0
AllSendable files = All (λ file. IsSendable (folder_file file)) files

push_search_loop_lem :
    (payload : Bytes) (files : List SearchFile)
    → AllSendable files
    → push_search_loop payload files ≡ ok (payload ++ all_bytes sent_bytes files)
unfolding push_search_loop
push_search_loop_lem payload [] h = ap ok (sym (append-nil payload))
push_search_loop_lem payload (file ∷ files) (h, hs) = rw (
  push_folder_file_lem payload (folder_file file) h,
  push_search_loop_lem (payload ++ sent_bytes file) files hs,
  append_assoc payload (sent_bytes file) (all_bytes sent_bytes files),
)

-- A count and the files.
abbrev pub files_bytes : List SearchFile → Bytes
files_bytes files = le_bytes 4 (length files) ++ all_bytes sent_bytes files

push_search_files_lem :
    (payload : Bytes) (files : List SearchFile)
    → length files < 2 ^ 32
    → AllSendable files
    → push_search_files payload files ≡ ok (payload ++ files_bytes files)
unfolding push_search_files push_u32
push_search_files_lem payload files small h = rw (
  checked_count_lem (length files) small,
  push_search_loop_lem (payload ++ le_bytes 4 (length files)) files h,
  append_assoc payload (le_bytes 4 (length files)) (all_bytes sent_bytes files),
)

Reads-read_search_file :
    (is_private : Bool) (file : SearchFile)
    → IsSendable (folder_file file)
    → Reads (read_search_file is_private) (sent_bytes file) (listed is_private file)
unfolding read_search_file listed
Reads-read_search_file is_private file h =
    Reads-bind_pure (search_file is_private) (Reads-read_folder_file (folder_file file) h)

Reads-read_search_files :
    (is_private : Bool) (files : List SearchFile)
    → length files ≤ max_results_per_response
    → AllSendable files
    → Reads (read_search_files is_private) (files_bytes files) (map (listed is_private) files)
unfolding read_search_files
Reads-read_search_files is_private files few h =
    Reads-bind _ (Reads-read_u32 (length files) (omega arith)) (
      Reads-bind _ (Reads-reject _ _ (le→ltb_false (length files) max_results_per_response few)) (
        Reads-repeat (read_search_file is_private) sent_bytes (listed is_private) files
          (All-imp _ _ files (Reads-read_search_file is_private) h)))

-- The payload of an answer before it is packed.
abbrev pub search_layout : Bytes → ℕ → List SearchFile → Bool → ℕ → ℕ → Bytes
search_layout username token files slot_free average_speed queue_length =
    string_bytes username
    ++ (le_bytes 4 token
        ++ (files_bytes (keep is_open files)
            ++ ((bool_byte slot_free ∷ [])
                ++ (le_bytes 4 average_speed
                    ++ (le_bytes 4 queue_length
                        ++ (le_bytes 4 0 ++ (files_bytes (keep is_locked files) ++ [])))))))

search_frame_lem :
    (z : Zlib) (username : Bytes) (token : ℕ) (files : List SearchFile) (slot_free : Bool)
    (average_speed queue_length : ℕ)
    → length username < 2 ^ 32
    → length (keep is_open files) < 2 ^ 32
    → length (keep is_locked files) < 2 ^ 32
    → AllSendable files
    → file_search_response_frame z username token files slot_free average_speed queue_length
      ≡ encode_compressed_message z file_search_response_code
          (search_layout username token files slot_free average_speed queue_length)
unfolding file_search_response_frame push_u32
search_frame_lem z username token files slot_free average_speed queue_length hu ho hl h =
    rw
      (
        push_string_lem [] username hu,
        push_search_files_lem (string_bytes username ++ le_bytes 4 token) (keep is_open files) ho
            (All-keep _ is_open files h),
        push_search_files_lem _ (keep is_locked files) hl (All-keep _ is_locked files h),
      )
      (ap (encode_compressed_message z file_search_response_code) (simp (append_assoc, append-nil)))

-- The answer that the asking peer gets.
abbrev pub search_result : Bytes → ℕ → List SearchFile → Bool → ℕ → ℕ → SearchResponse
search_result username token files slot_free average_speed queue_length = record {
  username = username;
  token = token;
  files = map (listed false) (keep is_open files) ++ map (listed true) (keep is_locked files);
  slot_free = slot_free;
  average_speed = average_speed;
  queue_length = queue_length;
}

search_body :
    (username : Bytes) (token : ℕ) (files : List SearchFile) (slot_free : Bool)
    (average_speed queue_length : ℕ)
    → IsText username
    → length username < 2 ^ 32
    → token < 2 ^ 32
    → average_speed < 2 ^ 32
    → queue_length < 2 ^ 32
    → AllSendable files
    → length (keep is_open files) ≤ max_results_per_response
    → length (keep is_locked files) ≤ max_results_per_response
    → Ends search_response
        (search_layout username token files slot_free average_speed queue_length)
        (search_result username token files slot_free average_speed queue_length)
unfolding search_response
search_body username token files slot_free average_speed queue_length utf8 hu ht hs hq h few few' =
    let four : 4 ≤ length (files_bytes (keep is_locked files)) = omega (
      arith,
      length-append (le_bytes 4 (length (keep is_locked files)))
          (all_bytes sent_bytes (keep is_locked files)),
      length-le_bytes 4 (length (keep is_locked files)),
    ) in
    Ends-bind _ (Reads-read_string_lossy username hu utf8) (
      Ends-bind _ (Reads-read_u32 token ht) (
        Ends-bind _ (Reads-read_search_files false _ few (All-keep _ is_open files h)) (
          Ends-bind _ (Reads-read_bool slot_free) (
            Ends-bind _ (Reads-read_u32 average_speed hs) (
              Ends-bind _ (Reads-read_u32 queue_length hq) (
                Ends-if_left 4 0 _ (omega (arith, length-le_bytes 4 0))
                  (Reads-read_u32 0 (omega arith))
                  (Ends-if_left 4 [] _ four
                    (Reads-read_search_files true _ few' (All-keep _ is_locked files h))
                    (Ends-pure _))))))))

-- An answer to a search arrives whole: the receiver gets the name, the token and the numbers as
-- they were sent, then the open files and behind them the locked ones, each with its five
-- attributes, backslashes for slashes and an extension in lower case, and what follows the frame
-- stays on the socket. Conditions: the codec is lossless and encodes the payload; names and
-- extensions are UTF-8; numbers fit their words; each half has at most as many files as a receiver
-- takes, and the payload keeps its limits, packed and unpacked.
pub parse_search_response-file_search_response_frame :
    (z : Zlib)
    → IsLossless z
    → (username : Bytes) (token : ℕ) (files : List SearchFile) (slot_free : Bool)
      (average_speed queue_length : ℕ) (packed rest : Bytes)
    → IsText username
    → token < 2 ^ 32
    → average_speed < 2 ^ 32
    → queue_length < 2 ^ 32
    → AllSendable files
    → length (keep is_open files) ≤ max_results_per_response
    → length (keep is_locked files) ≤ max_results_per_response
    → length (search_layout username token files slot_free average_speed queue_length)
      ≤ max_decompressed_search_length
    → z.deflate (search_layout username token files slot_free average_speed queue_length)
      ≡ some packed
    → 4 + length packed ≤ max_peer_message_length
    → delivered read_peer_frame
        (parse_search_response z)
        (file_search_response_frame z username token files slot_free average_speed queue_length)
        rest
      ≡ ok (search_result username token files slot_free average_speed queue_length, rest)
unfolding parse_search_response
parse_search_response-file_search_response_frame z lossless username token files slot_free
      average_speed queue_length packed rest utf8 ht hs hq h few few' small hz fits =
    let name : length username < 2 ^ 32 =
      omega (arith, length-append (string_bytes username) _, length-string_bytes username, small) in
    rw
      (search_frame_lem z username token files slot_free average_speed queue_length name
        (omega arith) (omega arith) h)
      (deliver_packed z lossless file_search_response_code max_decompressed_search_length _ packed
        search_response _ rest hz (omega arith) fits small (omega arith)
        (search_body username token files slot_free average_speed queue_length utf8 name ht hs hq h
          few few'))
