-- ===== src/Examples/Profile.antt =====
-- A short profile with a picture of two bytes.
use forever.Prelude.{◌≡◌, refl, [], ◌∷◌, true, some, arith}
use forever.Bytes.{Bytes}
use forever.Text.Utf8.{is_utf8, IsText}
use forever.Protocol.Error.{ok}
use forever.Protocol.Framing.{read_profile_frame}
use forever.Protocol.Framing.Delivery.{delivered}
use forever.Protocol.Outgoing.Peer.{user_info_response_frame}
use forever.Protocol.Users.{parse_user_info_response}
use forever.Protocol.Users.RoundTrip.{parse_user_info_response-user_info_response_frame}

abbrev about : Bytes
about = b'h' ∷ b'i' ∷ []

abbrev picture : Bytes
picture = 255 ∷ 216 ∷ []

about-IsText : IsText about
unfolding is_utf8
about-IsText = refl

parse_user_info_response-user_info_response_frame_example :
    delivered read_profile_frame parse_user_info_response
      (user_info_response_frame about (some picture) 2 70_000 true 1)
      about
    ≡ ok (
      record {
        description = about;
        picture = some picture;
        upload_slots = 2;
        queue_size = 70_000;
        slots_free = true;
        upload_permission = some 1;
      },
      about,
    )
parse_user_info_response-user_info_response_frame_example =
    parse_user_info_response-user_info_response_frame about (some picture) 2 70_000 true 1 about
      about-IsText (omega arith) (omega arith) (omega arith) (omega arith) (omega arith)
