-- ===== src/Protocol/Server/Limits.antt =====
-- What the parsers of protocol.rs for the server's messages let through, whatever it sent.
use forever.Prelude.{
  [], ◌∷◌, ℕ, ◌≤◌, ◌≡◌, subst, false, ◌||◌, or_false, some, length, All, arith, ltb_false→le, ltb,
  ◌==◌,
}
use forever.Bytes.{Bytes, IsBytes}
use forever.Text.Utf8.{from_utf8}
use forever.Protocol.Codes.{
  max_network_username_bytes, max_private_message_bytes, max_excluded_phrases,
  max_excluded_phrase_bytes,
}
use forever.Protocol.Types.{Frame, PrivateMessage}
use forever.Protocol.Reader.Ensures.{
  Ensures, Sound, Anything, Ensures-pure, Ensures-bind, Ensures-skip, Ensures-reject, Ensures-if,
  Ensures-remaining, Ensures-read_bytes, Ensures-read_string_lossy, Ensures-read_bool,
  Ensures-repeat_le, Ensures-or_invalid_utf8, skip_rules, skip_u32,
}
use forever.Protocol.Framing.Soundness.{decode-Sound}
use forever.Protocol.Fields.Limits.{
  IsBounded, empty_or_over-IsBounded, IsUsername, Ensures-bounded_count,
}
use forever.Protocol.Fields.{empty_or_over}
use forever.Protocol.Server.{
  parse_login_response, login_accepted, login_rejected, read_detail, parse_connect_to_peer,
  parse_peer_address, parse_server_search_request, parse_private_message, read_privileged_user,
  parse_privileged_users, read_phrase, parse_excluded_search_phrases, parse_wishlist_interval,
  parse_cant_connect_token,
}

Ensures-login_accepted : Ensures Anything login_accepted
unfolding login_accepted
Ensures-login_accepted = search skip_rules depth 12

Ensures-read_detail : Ensures Anything read_detail
unfolding read_detail
Ensures-read_detail = search skip_rules

Ensures-login_rejected : Ensures Anything login_rejected
unfolding login_rejected
Ensures-login_rejected = search (skip_rules, Ensures-read_detail) depth 12

pub parse_login_response-Sound :
    (frame : Frame) → IsBytes frame.payload → Sound Anything (parse_login_response frame)
unfolding parse_login_response
parse_login_response-Sound frame = decode-Sound frame _ (
    Ensures-skip _ Ensures-read_bool
      (λ is_accepted. Ensures-if is_accepted Ensures-login_accepted Ensures-login_rejected))

pub parse_connect_to_peer-Sound :
    (frame : Frame) → IsBytes frame.payload → Sound Anything (parse_connect_to_peer frame)
unfolding parse_connect_to_peer
parse_connect_to_peer-Sound frame = decode-Sound frame _ (search skip_rules depth 24)

pub parse_peer_address-Sound :
    (frame : Frame) → IsBytes frame.payload → Sound Anything (parse_peer_address frame)
unfolding parse_peer_address
parse_peer_address-Sound frame = decode-Sound frame _ (search skip_rules depth 24)

pub parse_server_search_request-Sound :
    (frame : Frame) → IsBytes frame.payload → Sound Anything (parse_server_search_request frame)
unfolding parse_server_search_request
parse_server_search_request-Sound frame = decode-Sound frame _ (search skip_rules depth 12)

pub record MessageFits (message : PrivateMessage) : Type 0 where
  pub username : IsUsername message.username
  pub text : IsBounded max_private_message_bytes message.message

-- For a payload of bytes, `parse_private_message` never panics, and what it accepts is a sender of
-- 1 to 100 bytes and a text of 1 to 8192 bytes.
pub parse_private_message-Sound :
    (frame : Frame) → IsBytes frame.payload → Sound MessageFits (parse_private_message frame)
unfolding parse_private_message
parse_private_message-Sound frame = decode-Sound frame _ (
    Ensures-skip _ skip_u32 (λ id. Ensures-skip _ skip_u32 (λ time.
      Ensures-skip _ Ensures-read_string_lossy (λ username.
        Ensures-skip _ Ensures-read_string_lossy (λ message.
          Ensures-skip _ Ensures-read_bool (λ is_new. Ensures-bind _ (Ensures-reject _ _) (λ _ h.
            let both : (empty_or_over max_network_username_bytes username ≡ false)
                × (empty_or_over max_private_message_bytes message ≡ false) =
              or_false _ _ h in
            Ensures-pure _ (record {
              username = empty_or_over-IsBounded max_network_username_bytes username both.0;
              text = empty_or_over-IsBounded max_private_message_bytes message both.1;
            }))))))))

-- `from_utf8` changes nothing that it accepts.
from_utf8-same : (bytes s : Bytes) → from_utf8 bytes ≡ some s → bytes ≡ s
unfolding from_utf8
from_utf8-same bytes s h = ground arith

Ensures-read_privileged_user : Ensures IsUsername read_privileged_user
unfolding read_privileged_user
Ensures-read_privileged_user = Ensures-skip _ skip_u32 (λ n.
    Ensures-bind _ (Ensures-reject _ _) (λ _ h.
      Ensures-bind _ (Ensures-read_bytes n) (λ bytes block.
        Ensures-or_invalid_utf8 (from_utf8 bytes) (λ s e. sized n bytes s h block.1 e))))
  where
    sized :
        (n : ℕ) (bytes s : Bytes)
        → (n == 0 || ltb max_network_username_bytes n) ≡ false
        → length bytes ≡ n
        → from_utf8 bytes ≡ some s
        → IsUsername s
    sized n bytes s h len e =
        let (nonzero, small) = or_false (n == 0) (ltb max_network_username_bytes n) h in
        subst IsUsername (from_utf8-same bytes s e) (record {
          not_empty = ground (arith, len);
          at_most = omega (arith, len, ltb_false→le n max_network_username_bytes small);
        })

-- For a payload of bytes, `parse_privileged_users` never panics, and what it accepts is at most
-- 100,000 names, each of 1 to 100 bytes.
pub parse_privileged_users-Sound :
    (frame : Frame)
    → IsBytes frame.payload
    → Sound
        (λ users. (length users ≤ 100_000) × All IsUsername users)
        (parse_privileged_users frame)
unfolding parse_privileged_users
parse_privileged_users-Sound frame = decode-Sound frame _ (
    Ensures-skip _ skip_u32 (λ count. Ensures-skip _ Ensures-remaining (λ left.
      Ensures-bind _ (Ensures-reject _ _) (λ _ h.
        Ensures-bind _
          (Ensures-repeat_le 100_000 count (ltb_false→le count 100_000 (or_false _ _ h).0)
            Ensures-read_privileged_user)
          (λ users good. search skip_rules depth 8)))))

Ensures-read_phrase : Ensures (λ phrase. length phrase ≤ max_excluded_phrase_bytes) read_phrase
unfolding read_phrase
Ensures-read_phrase = Ensures-skip _ skip_u32 (λ n. Ensures-bind _ (Ensures-reject _ _) (λ _ h.
    Ensures-bind _ (Ensures-read_bytes n) (λ bytes block.
      Ensures-or_invalid_utf8 (from_utf8 bytes) (λ s e.
        subst (λ l. length l ≤ max_excluded_phrase_bytes) (from_utf8-same bytes s e)
          (omega (arith, block.1, ltb_false→le n max_excluded_phrase_bytes h))))))

-- For a payload of bytes, `parse_excluded_search_phrases` never panics, and what it accepts is at
-- most 10,000 phrases of at most 4096 bytes each.
pub parse_excluded_search_phrases-Sound :
    (frame : Frame)
    → IsBytes frame.payload
    → Sound
        (λ phrases.
          (length phrases ≤ max_excluded_phrases)
          × All (λ phrase. length phrase ≤ max_excluded_phrase_bytes) phrases)
        (parse_excluded_search_phrases frame)
unfolding parse_excluded_search_phrases
parse_excluded_search_phrases-Sound frame = decode-Sound frame _ (
    Ensures-skip _ skip_u32 (λ n.
      Ensures-bind _ (Ensures-bounded_count n max_excluded_phrases _) (λ count few.
        Ensures-bind _ (Ensures-repeat_le max_excluded_phrases count few Ensures-read_phrase)
          (λ phrases good. search skip_rules depth 8))))

pub parse_wishlist_interval-Sound :
    (frame : Frame) → IsBytes frame.payload → Sound Anything (parse_wishlist_interval frame)
unfolding parse_wishlist_interval
parse_wishlist_interval-Sound frame = decode-Sound frame _ (search skip_rules)

pub parse_cant_connect_token-Sound :
    (frame : Frame) → IsBytes frame.payload → Sound Anything (parse_cant_connect_token frame)
unfolding parse_cant_connect_token
parse_cant_connect_token-Sound frame = decode-Sound frame _ skip_u32

-- For payloads of bytes, the parsers of private messages, privileged users and excluded phrases
-- never panic. What they accept is a sender of 1 to 100 bytes with a text of 1 to 8192, at most
-- 100,000 names of 1 to 100 bytes, and at most 10,000 phrases of at most 4096 bytes each.
pub server_parsers-Sound :
    (message users phrases : Frame)
    → All (λ f. IsBytes f.payload) (message ∷ users ∷ phrases ∷ [])
    → Sound MessageFits (parse_private_message message)
      × Sound
          (λ users. (length users ≤ 100_000) × All IsUsername users)
          (parse_privileged_users users)
      × Sound
          (λ phrases.
            (length phrases ≤ max_excluded_phrases)
            × All (λ phrase. length phrase ≤ max_excluded_phrase_bytes) phrases)
          (parse_excluded_search_phrases phrases)
server_parsers-Sound message users phrases (a, (b, (c, _))) = (
  parse_private_message-Sound message a,
  parse_privileged_users-Sound users b,
  parse_excluded_search_phrases-Sound phrases c,
)
