-- ===== src/Protocol/Users/RoundTrip.antt =====
-- The profile that a peer sends, from the frame that writes it to the parser.
use forever.Prelude.{
  ℕ, ◌+◌, ◌≤◌, ◌<◌, ◌^◌, ◌≡◌, Bool, true, false, Option, none, some, [], ◌∷◌, ◌++◌, length, arith,
  ap, append_assoc, append-nil, le→ltb_false,
}
use forever.Bytes.{Bytes, le_bytes}
use forever.Text.Utf8.{IsText}
use forever.Protocol.Error.{ok}
use forever.Protocol.Codes.{
  user_info_response_code, max_profile_description_bytes, max_profile_picture_bytes,
  max_profile_message_length,
}
use forever.Protocol.Writer.{push_u32}
use forever.Protocol.Writer.Layout.{string_bytes, push_string_lem, checked_count_lem, payload_sizes}
use forever.Protocol.Reader.{read_if}
use forever.Protocol.Reader.Reads.{
  Reads, Reads-pure, Reads-bind, Reads-bind_pure, Reads-reject, Reads-read_bytes, Ends-bind,
  Ends-pure, Ends-if_left, Reads-read_u32, Reads-read_bool, Reads-read_string_lossy, bool_byte,
}
use forever.Protocol.Framing.{read_profile_frame, encode_message}
use forever.Protocol.Framing.Delivery.{delivered, deliver}
use forever.Protocol.Outgoing.Peer.{user_info_response_frame, push_picture, picture_over}
use forever.Protocol.Users.{read_picture, read_permission, parse_user_info_response}
use forever.Protocol.Users.Limits.{PictureFits}

abbrev has_picture : Option Bytes → Bool
has_picture none = false
has_picture (some picture) = true

abbrev picture_bytes : Option Bytes → Bytes
picture_bytes none = []
picture_bytes (some picture) = le_bytes 4 (length picture) ++ ([] ++ picture)

-- The payload of a profile.
abbrev profile_layout : Bytes → Option Bytes → ℕ → ℕ → Bool → ℕ → Bytes
profile_layout description picture upload_slots queue_size slots_free permission =
    string_bytes description
    ++ ((bool_byte (has_picture picture) ∷ [])
        ++ (picture_bytes picture
            ++ (le_bytes 4 upload_slots
                ++ (le_bytes 4 queue_size
                    ++ ((bool_byte slots_free ∷ []) ++ (le_bytes 4 permission ++ []))))))

profile_frame_lem :
    (description : Bytes) (picture : Option Bytes) (upload_slots queue_size : ℕ) (slots_free : Bool)
    (permission : ℕ)
    → length description ≤ max_profile_description_bytes
    → PictureFits picture
    → user_info_response_frame description picture upload_slots queue_size slots_free permission
      ≡ encode_message user_info_response_code
          (profile_layout description picture upload_slots queue_size slots_free permission)
unfolding user_info_response_frame push_u32 push_picture picture_over
profile_frame_lem description none upload_slots queue_size slots_free permission hd hp =
    let small : length description < 2 ^ 32 = omega arith in
    rw
      (
        le→ltb_false (length description) max_profile_description_bytes hd,
        push_string_lem [] description small,
      )
      (ap (encode_message user_info_response_code) (simp (append_assoc, append-nil)))
profile_frame_lem description (some picture) upload_slots queue_size slots_free permission hd hp =
    let small : length description < 2 ^ 32 = omega arith in
    let few : length picture < 2 ^ 32 = omega (arith, hp) in
    rw
      (
        le→ltb_false (length description) max_profile_description_bytes hd,
        le→ltb_false (length picture) max_profile_picture_bytes hp,
        push_string_lem [] description small,
        checked_count_lem (length picture) few,
      )
      (ap (encode_message user_info_response_code) (simp (append_assoc, append-nil)))

Reads-picture :
    (picture : Option Bytes)
    → PictureFits picture
    → Reads (read_if (has_picture picture) read_picture none) (picture_bytes picture) picture
unfolding read_if read_picture
Reads-picture none h = Reads-pure none
Reads-picture (some picture) h = Reads-bind _ (Reads-read_u32 (length picture) (omega (arith, h))) (
    Reads-bind _ (Reads-reject _ _ (le→ltb_false (length picture) max_profile_picture_bytes h))
      (Reads-bind_pure some (Reads-read_bytes picture)))

Reads-read_permission : (v : ℕ) → v < 2 ^ 32 → Reads read_permission (le_bytes 4 v) (some v)
unfolding read_permission
Reads-read_permission v h = Reads-bind_pure some (Reads-read_u32 v h)

-- What stands behind the picture takes 13 bytes.
tail_size :
    (upload_slots queue_size : ℕ) (slots_free : Bool) (permission : ℕ)
    → length (
        le_bytes 4 upload_slots
        ++ (le_bytes 4 queue_size ++ (bool_byte slots_free ∷ (le_bytes 4 permission ++ []))))
      ≡ 13
tail_size upload_slots queue_size slots_free permission = omega payload_sizes

profile_size :
    (description : Bytes) (picture : Option Bytes) (upload_slots queue_size : ℕ) (slots_free : Bool)
    (permission : ℕ)
    → length description ≤ max_profile_description_bytes
    → PictureFits picture
    → 4 + length (profile_layout description picture upload_slots queue_size slots_free permission)
      ≤ max_profile_message_length
profile_size description none upload_slots queue_size slots_free permission hd hp =
    omega (payload_sizes, tail_size upload_slots queue_size slots_free permission)
profile_size description (some picture) upload_slots queue_size slots_free permission hd hp =
    omega (payload_sizes, hp, tail_size upload_slots queue_size slots_free permission)

-- A profile that is sent arrives: the description, the picture or none, the numbers and the
-- permission, and what follows the frame stays on the socket. Conditions: the description is UTF-8
-- and at most 8 KiB, the picture at most 2 MiB, the numbers fit 32 bits.
pub parse_user_info_response-user_info_response_frame :
    (description : Bytes) (picture : Option Bytes) (upload_slots queue_size : ℕ) (slots_free : Bool)
    (permission : ℕ) (rest : Bytes)
    → IsText description
    → length description ≤ max_profile_description_bytes
    → PictureFits picture
    → upload_slots < 2 ^ 32
    → queue_size < 2 ^ 32
    → permission < 2 ^ 32
    → delivered read_profile_frame parse_user_info_response
        (user_info_response_frame description picture upload_slots queue_size slots_free permission)
        rest
      ≡ ok (
        record {
          description = description;
          picture = picture;
          upload_slots = upload_slots;
          queue_size = queue_size;
          slots_free = slots_free;
          upload_permission = some permission;
        },
        rest,
      )
unfolding parse_user_info_response read_profile_frame
parse_user_info_response-user_info_response_frame description picture upload_slots queue_size
      slots_free permission rest utf8 hd hp hs hq hv =
    let fits =
      profile_size description picture upload_slots queue_size slots_free permission hd hp in
    let four : 4 ≤ length (le_bytes 4 permission) = omega payload_sizes in
    rw (profile_frame_lem description picture upload_slots queue_size slots_free permission hd hp) (
      deliver max_profile_message_length user_info_response_code
        (profile_layout description picture upload_slots queue_size slots_free permission) _ _ rest
        (omega arith) (omega (arith, fits)) fits
        (Ends-bind _ (Reads-read_string_lossy description (omega arith) utf8) (
          Ends-bind _
            (Reads-reject _ _ (le→ltb_false (length description) max_profile_description_bytes hd))
            (Ends-bind _ (Reads-read_bool (has_picture picture)) (
              Ends-bind _ (Reads-picture picture hp) (
                Ends-bind _ (Reads-read_u32 upload_slots hs) (
                  Ends-bind _ (Reads-read_u32 queue_size hq) (
                    Ends-bind _ (Reads-read_bool slots_free) (
                      Ends-if_left 4 none _ four (Reads-read_permission permission hv)
                        (Ends-pure _))))))))))
