-- ===== src/Protocol/Distributed/Limits.antt =====
-- What the parsers of protocol.rs for the distributed network let through, whatever was sent.
use forever.Prelude.{
  ℕ, ◌≤◌, ◌<◌, ◌≡◌, refl, false, ◌||◌, or_false, Option, some, none, List, [], ◌∷◌, length, All,
  arith, ltb_false→le, ltb, ◌==◌, Bool-cases, inl, inr, if◌then◌else◌,
}
use forever.Prelude.Int.{ℤ, pos, negsuc}
use forever.Bytes.{Bytes, IsBytes}
use forever.Protocol.Codes.{
  max_network_username_bytes, max_distributed_query_bytes, max_possible_parents,
}
use forever.Protocol.Types.{Frame, DistributedFrame, DistributedSearch, ParentCandidate}
use forever.Protocol.Reader.Ensures.{
  Ensures, Sound, Anything, Ensures-pure, Ensures-fail, Ensures-bind, Ensures-skip, Ensures-reject,
  Ensures-read_string_lossy, Ensures-read_ipv4, Ensures-read_i32, Ensures-repeat_le, skip_u32,
}
use forever.Protocol.Framing.Soundness.{expect_code-Sound, decode-Sound, decode_distributed-Sound}
use forever.Protocol.Fields.{empty_or_over}
use forever.Protocol.Fields.Limits.{IsBounded, empty_or_over-IsBounded, IsUsername}
use forever.Protocol.Distributed.{
  read_parent, pushed, parse_possible_parents, parse_distributed_search, as_level,
  parse_distributed_branch_level, parse_distributed_branch_root, unwrap_embedded,
  parse_embedded_distributed_search,
}

pub record ParentFits (parent : ParentCandidate) : Type 0 where
  pub username : IsUsername parent.username
  pub port_pos : 0 < parent.port
  pub port_fits : parent.port < 65536

abbrev RoundFits : Option ParentCandidate → Type 0
RoundFits none = Unit
RoundFits (some parent) = ParentFits parent

round :
    (username : Bytes) (port : ℕ) (parent : ParentCandidate)
    → parent.username ≡ username
    → parent.port ≡ port
    → RoundFits (
        if empty_or_over max_network_username_bytes username || (port == 0 || ltb 65535 port)
        then none
        else some parent)
round username port parent eu ep =
    elim (Bool-cases
      (empty_or_over max_network_username_bytes username || (port == 0 || ltb 65535 port))) [
        | inl bad ↦ rw bad tt
        | inr good ↦
            let (name, rest) =
              or_false (empty_or_over max_network_username_bytes username)
                (port == 0 || ltb 65535 port) good in
            let (nonzero, small) = or_false (port == 0) (ltb 65535 port) rest in
            rw good (record {
              username = rw eu (empty_or_over-IsBounded max_network_username_bytes username name);
              port_pos = ground (arith, ep);
              port_fits = omega (arith, ep, ltb_false→le port 65535 small);
            })
      ]

Ensures-read_parent : Ensures RoundFits read_parent
unfolding read_parent
Ensures-read_parent = Ensures-skip _ Ensures-read_string_lossy (λ username.
    Ensures-skip _ Ensures-read_ipv4 (λ address.
      Ensures-skip _ skip_u32 (λ port. Ensures-pure _ (round username port _ refl refl))))

pushed-ParentFits :
    (rounds : List (Option ParentCandidate))
    → All RoundFits rounds
    → (length (pushed rounds) ≤ length rounds) × All ParentFits (pushed rounds)
unfolding pushed
pushed-ParentFits [] h = (omega arith, tt)
pushed-ParentFits (none ∷ rounds) (h, hs) =
    let (len, rest) = pushed-ParentFits rounds hs in (omega arith, rest)
pushed-ParentFits (some parent ∷ rounds) (h, hs) =
    let (len, rest) = pushed-ParentFits rounds hs in (omega arith, (h, rest))

parents :
    (rounds : List (Option ParentCandidate))
    → (length rounds ≤ max_possible_parents) × All RoundFits rounds
    → (length (pushed rounds) ≤ max_possible_parents) × All ParentFits (pushed rounds)
parents rounds (few, good) = let (len, rest) = pushed-ParentFits rounds good in (omega arith, rest)

-- For a payload of bytes, `parse_possible_parents` never panics, and what it accepts is at most 10
-- parents, each with a name of 1 to 100 bytes and a port from 1 to 65535.
pub parse_possible_parents-Sound :
    (frame : Frame)
    → IsBytes frame.payload
    → Sound
        (λ found. (length found ≤ max_possible_parents) × All ParentFits found)
        (parse_possible_parents frame)
unfolding parse_possible_parents
parse_possible_parents-Sound frame = decode-Sound frame _ (
    Ensures-skip _ skip_u32 (λ count. Ensures-bind _ (Ensures-reject _ _) (λ _ h.
      Ensures-bind _
        (Ensures-repeat_le max_possible_parents count (ltb_false→le count max_possible_parents h)
          Ensures-read_parent)
        (λ rounds good. Ensures-pure _ (parents rounds good)))))

pub record SearchFits (search : DistributedSearch) : Type 0 where
  pub username : IsUsername search.username
  pub query : IsBounded max_distributed_query_bytes search.query

-- For a payload of bytes, `parse_distributed_search` never panics, and what it accepts is a search
-- with a name of 1 to 100 bytes and a query of 1 to 250.
pub parse_distributed_search-Sound :
    (frame : DistributedFrame)
    → IsBytes frame.payload
    → Sound SearchFits (parse_distributed_search frame)
unfolding parse_distributed_search
parse_distributed_search-Sound frame = decode_distributed-Sound frame _ (
    Ensures-skip _ skip_u32 (λ identifier. Ensures-bind _ (Ensures-reject _ _) (λ _ _.
      Ensures-skip _ Ensures-read_string_lossy (λ username. Ensures-skip _ skip_u32 (λ token.
        Ensures-skip _ Ensures-read_string_lossy (λ query.
          Ensures-bind _ (Ensures-reject _ _) (λ _ h.
            let both : (empty_or_over max_network_username_bytes username ≡ false)
                × (empty_or_over max_distributed_query_bytes query ≡ false) =
              or_false _ _ h in
            Ensures-pure _ (record {
              username = empty_or_over-IsBounded max_network_username_bytes username both.0;
              query = empty_or_over-IsBounded max_distributed_query_bytes query both.1;
            }))))))))

Ensures-as_level : (level : ℤ) → Ensures Anything (as_level level)
unfolding as_level
Ensures-as_level (pos n) = Ensures-pure n tt
Ensures-as_level (negsuc n) = Ensures-fail _

pub parse_distributed_branch_level-Sound :
    (frame : DistributedFrame)
    → IsBytes frame.payload
    → Sound Anything (parse_distributed_branch_level frame)
unfolding parse_distributed_branch_level
parse_distributed_branch_level-Sound frame =
    decode_distributed-Sound frame _ (Ensures-skip _ Ensures-read_i32 Ensures-as_level)

-- For a payload of bytes, `parse_distributed_branch_root` never panics, and what it accepts is a
-- name of 1 to 100 bytes.
pub parse_distributed_branch_root-Sound :
    (frame : DistributedFrame)
    → IsBytes frame.payload
    → Sound IsUsername (parse_distributed_branch_root frame)
unfolding parse_distributed_branch_root
parse_distributed_branch_root-Sound frame = decode_distributed-Sound frame _ (
    Ensures-skip _ Ensures-read_string_lossy (λ root.
      Ensures-bind _ (Ensures-reject _ _)
        (λ _ h. Ensures-pure _ (empty_or_over-IsBounded max_network_username_bytes root h))))

unwrapped : (payload : Bytes) → IsBytes payload → Sound SearchFits (unwrap_embedded payload)
unfolding unwrap_embedded
unwrapped [] h = tt
unwrapped (code ∷ payload) (h, hs) =
    parse_distributed_search-Sound (record { code = code; payload = payload }) hs

-- For a payload of bytes, `parse_embedded_distributed_search` never panics, and what it accepts is
-- a search with a name of 1 to 100 bytes and a query of 1 to 250.
pub parse_embedded_distributed_search-Sound :
    (frame : Frame)
    → IsBytes frame.payload
    → Sound SearchFits (parse_embedded_distributed_search frame)
unfolding parse_embedded_distributed_search
parse_embedded_distributed_search-Sound frame bytes =
    expect_code-Sound SearchFits frame _ _ (unwrapped frame.payload bytes)

-- For payloads of bytes, the parsers of what a distributed parent sends never panic. What they
-- accept is at most 10 parents, each with a name of 1 to 100 bytes and a port from 1 to 65535; a
-- search, embedded or not, with a name of 1 to 100 bytes and a query of 1 to 250; a root name of 1
-- to 100 bytes.
pub distributed_parsers-Sound :
    (list embedded : Frame) (query root : DistributedFrame)
    → All (λ f. IsBytes f.payload) (list ∷ embedded ∷ [])
    → All (λ f. IsBytes f.payload) (query ∷ root ∷ [])
    → Sound
        (λ found. (length found ≤ max_possible_parents) × All ParentFits found)
        (parse_possible_parents list)
      × Sound SearchFits (parse_embedded_distributed_search embedded)
      × Sound SearchFits (parse_distributed_search query)
      × Sound IsUsername (parse_distributed_branch_root root)
distributed_parsers-Sound list embedded query root (a, (b, _)) (c, (d, _)) = (
  parse_possible_parents-Sound list a,
  parse_embedded_distributed_search-Sound embedded b,
  parse_distributed_search-Sound query c,
  parse_distributed_branch_root-Sound root d,
)
