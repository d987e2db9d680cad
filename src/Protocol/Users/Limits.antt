-- ===== src/Protocol/Users/Limits.antt =====
-- What the parsers of protocol.rs for users let through, whatever the server or a peer sent.
use forever.Prelude.{All, [], ◌∷◌, ◌≤◌, Option, none, some, length, ltb_false→le, arith}
use forever.Bytes.{Bytes, IsBytes}
use forever.Protocol.Codes.{max_profile_description_bytes, max_profile_picture_bytes}
use forever.Protocol.Types.{Frame, UserInterests, UserInfoResponse}
use forever.Protocol.Reader.Ensures.{
  Ensures, Sound, Anything, Ensures-pure, Ensures-bind, Ensures-skip, Ensures-if, Ensures-reject,
  Ensures-read_bytes, Ensures-read_bool, Ensures-read_string_lossy, Ensures-read_if, skip_rules,
  skip_u32, skip_if, Ensures-remaining,
}
use forever.Protocol.Framing.Soundness.{decode-Sound}
use forever.Protocol.Fields.Limits.{
  IsUsername, AreInterests, Ensures-read_network_username, Ensures-read_interests,
  Ensures-read_country,
}
use forever.Protocol.Users.{
  watch_existing, parse_watch_user, parse_user_status, parse_user_stats, parse_user_interests,
  read_picture, read_permission, parse_user_info_response,
}

watched :
    (username : Bytes)
    → IsUsername username
    → Ensures (λ user. IsUsername user.username) (watch_existing username)
unfolding watch_existing
watched username h = search (skip_rules, Ensures-read_country) depth 30

-- For a payload of bytes, `parse_watch_user` never panics, and what it accepts is a user with a
-- name of 1 to 100 bytes.
pub parse_watch_user-Sound :
    (frame : Frame)
    → IsBytes frame.payload
    → Sound (λ user. IsUsername user.username) (parse_watch_user frame)
unfolding parse_watch_user
parse_watch_user-Sound frame = decode-Sound frame _ (
    Ensures-bind _ Ensures-read_network_username (λ username h.
      Ensures-skip _ Ensures-read_bool
        (λ exists. Ensures-if exists (watched username h) (Ensures-pure _ h))))

pub parse_user_status-Sound :
    (frame : Frame)
    → IsBytes frame.payload
    → Sound (λ status. IsUsername status.0) (parse_user_status frame)
unfolding parse_user_status
parse_user_status-Sound frame =
    decode-Sound frame _
      (Ensures-bind _ Ensures-read_network_username (λ username h. search skip_rules depth 12))

pub parse_user_stats-Sound :
    (frame : Frame)
    → IsBytes frame.payload
    → Sound (λ stats. IsUsername stats.username) (parse_user_stats frame)
unfolding parse_user_stats
parse_user_stats-Sound frame =
    decode-Sound frame _
      (Ensures-bind _ Ensures-read_network_username (λ username h. search skip_rules depth 20))

abbrev pub HasInterests : UserInterests → Type 0
HasInterests user = IsUsername user.username × AreInterests user.likes × AreInterests user.hates

-- For a payload of bytes, `parse_user_interests` never panics, and what it accepts is a user name
-- of 1 to 100 bytes and two lists of at most 500 interests, each of 1 to 250 bytes.
pub parse_user_interests-Sound :
    (frame : Frame) → IsBytes frame.payload → Sound HasInterests (parse_user_interests frame)
unfolding parse_user_interests
parse_user_interests-Sound frame = decode-Sound frame _ (
    Ensures-bind _ Ensures-read_network_username (λ username h.
      Ensures-bind _ (Ensures-read_interests _) (λ likes hl.
        Ensures-bind _ (Ensures-read_interests _) (λ hates hh. Ensures-pure _ (h, hl, hh)))))

abbrev pub PictureFits : Option Bytes → Type 0
PictureFits none = Unit
PictureFits (some picture) = length picture ≤ max_profile_picture_bytes

Ensures-read_picture : Ensures PictureFits read_picture
unfolding read_picture
Ensures-read_picture = Ensures-skip _ skip_u32 (λ n. Ensures-bind _ (Ensures-reject _ _) (λ _ h.
    Ensures-bind _ (Ensures-read_bytes n) (λ bytes block.
      Ensures-pure (some bytes)
        (omega (arith, block.1, ltb_false→le n max_profile_picture_bytes h)))))

Ensures-read_permission : Ensures Anything read_permission
unfolding read_permission
Ensures-read_permission = search skip_rules

pub record ProfileFits (profile : UserInfoResponse) : Type 0 where
  pub description_fits : length profile.description ≤ max_profile_description_bytes
  pub picture_fits : PictureFits profile.picture

-- For a payload of bytes, `parse_user_info_response` never panics, and what it accepts is a
-- profile with a description of at most 8 KiB and a picture of at most 2 MiB.
pub parse_user_info_response-Sound :
    (frame : Frame) → IsBytes frame.payload → Sound ProfileFits (parse_user_info_response frame)
unfolding parse_user_info_response
parse_user_info_response-Sound frame = decode-Sound frame _ (
    Ensures-skip _ Ensures-read_string_lossy (λ description.
      Ensures-bind _ (Ensures-reject _ _) (λ _ short.
        Ensures-skip _ Ensures-read_bool (λ has_picture.
          Ensures-bind _ (Ensures-read_if has_picture none Ensures-read_picture tt) (λ picture fits.
            let both : (length description ≤ max_profile_description_bytes) × PictureFits picture =
              (ltb_false→le _ _ short, fits) in
            Ensures-skip _ skip_u32 (λ _. Ensures-skip _ skip_u32 (λ _.
              Ensures-skip _ Ensures-read_bool (λ _. Ensures-skip _ Ensures-remaining (λ _.
                Ensures-skip _ (skip_if _ none Ensures-read_permission) (λ _.
                  Ensures-pure _
                    (record { description_fits = both.0; picture_fits = both.1 })))))))))))

-- For payloads of bytes, the parsers of messages about users never panic. What they accept names a
-- user in 1 to 100 bytes, has at most 500 interests of 1 to 250 bytes in each of two lists, and
-- has a description of at most 8 KiB and a picture of at most 2 MiB.
pub user_parsers-Sound :
    (user status stats interests profile : Frame)
    → All (λ f. IsBytes f.payload) (user ∷ status ∷ stats ∷ interests ∷ profile ∷ [])
    → Sound (λ user. IsUsername user.username) (parse_watch_user user)
      × Sound (λ status. IsUsername status.0) (parse_user_status status)
      × Sound (λ stats. IsUsername stats.username) (parse_user_stats stats)
      × Sound HasInterests (parse_user_interests interests)
      × Sound ProfileFits (parse_user_info_response profile)
user_parsers-Sound user status stats interests profile (a, (b, (c, (d, (e, _))))) = (
  parse_watch_user-Sound user a,
  parse_user_status-Sound status b,
  parse_user_stats-Sound stats c,
  parse_user_interests-Sound interests d,
  parse_user_info_response-Sound profile e,
)
