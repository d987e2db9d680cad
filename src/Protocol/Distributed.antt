-- ===== src/Protocol/Distributed.antt =====
-- The parsers of protocol.rs for the distributed search network.
pub mod Limits
use forever.Prelude.{ℕ, ◌||◌, not, Option, none, some, List, [], ◌∷◌, ltb, ◌==◌, if◌then◌else◌}
use mathlib.Core.List.{filter_map}
use forever.Prelude.Int.{ℤ, pos, negsuc}
use forever.Bytes.{Bytes}
use forever.Protocol.Error.{
  Result, err, ◌>>=◌ as ◌andthen◌, invalid_count, invalid_distributed_identifier,
  invalid_distributed_search, invalid_distributed_branch_level, invalid_distributed_branch_root,
  truncated_payload,
}
use forever.Protocol.Codes.{
  possible_parents_code, embedded_message_code, distributed_search_code,
  distributed_branch_level_code, distributed_branch_root_code, max_possible_parents,
  max_network_username_bytes, max_distributed_query_bytes,
}
use forever.Protocol.Types.{Frame, DistributedFrame, DistributedSearch, ParentCandidate, Ipv4Addr}
use forever.Protocol.Reader.{
  Reader, pure, fail, ◌>>=◌, ◌>>◌, reject, read_u32, read_i32, read_string_lossy, read_ipv4, repeat,
}
use forever.Protocol.Framing.{decode_distributed, expect_code}
use forever.Protocol.Framing
use forever.Protocol.Fields.{empty_or_over}

-- One round of the loop of `parse_possible_parents`: `none` is its `continue`.
read_parent : Reader (Option ParentCandidate)
read_parent = do
  username ← read_string_lossy
  address ← read_ipv4
  port ← read_u32
  pure (
      if empty_or_over max_network_username_bytes username || (port == 0 || ltb 65535 port)
      then none
      else some (record { username = username; address = address; port = port }))

-- The candidates that were pushed.
unfoldable pub pushed : List (Option ParentCandidate) → List ParentCandidate
pushed [] = []
pushed (none ∷ rest) = pushed rest
pushed (some parent ∷ rest) = parent ∷ pushed rest

pub parse_possible_parents : Frame → Result (List ParentCandidate)
unfolding read_parent pushed
parse_possible_parents frame = Framing.decode frame possible_parents_code do
  count ← read_u32
  reject (ltb max_possible_parents count) (invalid_count "possible distributed parents" count)
  rounds ← repeat count read_parent
  pure (pushed rounds)

-- `u32::from(b'1')`
pub parse_distributed_search : DistributedFrame → Result DistributedSearch
parse_distributed_search frame = decode_distributed frame distributed_search_code do
  identifier ← read_u32
  reject (not (identifier == b'1')) (invalid_distributed_identifier identifier)
  username ← read_string_lossy
  token ← read_u32
  query ← read_string_lossy
  reject
      (empty_or_over max_network_username_bytes username
        || empty_or_over max_distributed_query_bytes query)
      invalid_distributed_search
  pure (record { username = username; token = token; query = query })

-- `u32::try_from(level)`
unfoldable pub as_level : ℤ → Reader ℕ
as_level (pos n) = pure n
as_level (negsuc n) = fail (invalid_distributed_branch_level (negsuc n))

unfoldable pub parse_distributed_branch_level : DistributedFrame → Result ℕ
unfolding as_level
parse_distributed_branch_level frame =
    decode_distributed frame distributed_branch_level_code do level ← read_i32; as_level level

unfoldable pub parse_distributed_branch_root : DistributedFrame → Result Bytes
parse_distributed_branch_root frame = decode_distributed frame distributed_branch_root_code do
  root ← read_string_lossy
  reject (empty_or_over max_network_username_bytes root) invalid_distributed_branch_root
  pure root

-- The first byte of the payload is the code of the frame inside.
unwrap_embedded : Bytes → Result DistributedSearch
unwrap_embedded [] = err truncated_payload
unwrap_embedded (code ∷ payload) =
    parse_distributed_search (record { code = code; payload = payload })

pub parse_embedded_distributed_search : Frame → Result DistributedSearch
unfolding unwrap_embedded
parse_embedded_distributed_search frame =
    expect_code frame embedded_message_code andthen λ _. unwrap_embedded frame.payload
