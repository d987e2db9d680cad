-- ===== src/Branch/Frames.antt =====
-- The frames that a branch of branch.rs sends to its children, as they read them.
use forever.Prelude.{
  ℕ, ◌+◌, ◌≤◌, ◌<◌, ◌^◌, false, subst, is_empty, ltb, or_false, lt→ltb, ◌≡◌, refl, ap, ◌∙◌, ◌++◌,
  length, append-nil, arith,
}
use forever.Prelude.Int.{pos}
use forever.Bytes.{Bytes, le_bytes, from_le, i32_of}
use forever.Bytes.Laws.{length-le_bytes, from_le-le_bytes}
use forever.Text.Utf8.{IsText}
use forever.Protocol.Error.{Result, invalid_distributed_branch_root, ok, ◌>>=◌ as ◌andthen◌}
use forever.Protocol.Codes.{
  distributed_branch_level_code, distributed_branch_root_code, max_network_username_bytes,
  max_distributed_message_length,
}
use forever.Protocol.Types.{DistributedFrame}
use forever.Protocol.Fields.{empty_or_over}
use forever.Protocol.Reader.{read_string_lossy, read_i32, Reader, reject, pure, ◌>>=◌}
use forever.Protocol.Reader.Reads.{
  Reads, Ends, Ends-bind, Ends-pure, Ends-evaluate, Reads-reject, Reads-word, Reads-expect_word,
  Reads-bind, Reads-bind_pure, Reads-read_string_lossy,
}
use forever.Protocol.Writer.Layout.{string_bytes, length-string_bytes}
use forever.Protocol.Framing.{read_distributed_frame, decode_distributed}
use forever.Protocol.Framing.RoundTrip.{short_message, read_distributed_frame-short_message}
use forever.Protocol.Distributed.{
  parse_distributed_branch_root, parse_distributed_branch_level, as_level,
}
use forever.Branch.{encode, root_frame, level_frame}

-- A frame that `encode` makes is read back with its code and payload, and what follows it is left,
-- if it is within the limit of the reader.
pub read_distributed_frame-encode :
    (code : ℕ) (payload rest : Bytes)
    → length payload + 1 ≤ max_distributed_message_length
    → read_distributed_frame (encode code payload ++ rest)
      ≡ ok (record { code = code; payload = payload }, rest)
unfolding encode short_message
read_distributed_frame-encode code payload rest h =
    read_distributed_frame-short_message code payload rest (omega arith) h

-- What a child gets of the bytes on its socket: a frame, which it parses, and what follows.
abbrev pub received_as : {A : Type 0} → (DistributedFrame → Result A) → Bytes → Result (A × Bytes)
received_as parse stream =
    read_distributed_frame stream andthen λ r. parse r.0 andthen λ a. ok (a, r.1)

i32_of-small : (v : ℕ) → v < 2 ^ 31 → i32_of v ≡ pos v
unfolding i32_of
i32_of-small v h = rw (lt→ltb v (2 ^ 31) h, i32_of) refl

-- The body of `parse_distributed_branch_root`.
abbrev checked_root : Bytes → Reader Bytes
checked_root root =
    reject (empty_or_over max_network_username_bytes root) invalid_distributed_branch_root >>= λ u.
    pure root

abbrev root_body : Reader Bytes
root_body = read_string_lossy >>= checked_root

evaluated_root :
    (root : Bytes)
    → IsText root
    → empty_or_over max_network_username_bytes root ≡ false
    → length root ≤ max_network_username_bytes
    → parse_distributed_branch_root
        (record { code = distributed_branch_root_code; payload = string_bytes root })
      ≡ ok root
unfolding parse_distributed_branch_root decode_distributed
evaluated_root root utf8 fits small =
    Ends-evaluate root_body (string_bytes root) root
      (subst (λ e. Ends root_body e root) (append-nil (string_bytes root))
        (Ends-bind checked_root (Reads-read_string_lossy root (omega arith) utf8) (
          Ends-bind (λ u. pure root)
            (Reads-reject (empty_or_over max_network_username_bytes root)
              invalid_distributed_branch_root fits)
            (Ends-pure root))))
      (omega (arith, length-string_bytes root))

-- A child reads the name of the root that its branch sent, and what follows the frame is left, if
-- the name is UTF-8 of 1 to 100 bytes.
pub parse_distributed_branch_root-root_frame :
    (root rest : Bytes)
    → IsText root
    → empty_or_over max_network_username_bytes root ≡ false
    → received_as parse_distributed_branch_root (root_frame root ++ rest) ≡ ok (root, rest)
unfolding root_frame string_bytes
parse_distributed_branch_root-root_frame root rest utf8 fits =
    let small : length root ≤ max_network_username_bytes =
      ground
        (arith, (or_false (is_empty root) (ltb max_network_username_bytes (length root)) fits).1) in
    rw (
      read_distributed_frame-encode distributed_branch_root_code (string_bytes root) rest
          (omega (arith, length-string_bytes root)),
      evaluated_root root utf8 fits small,
    )

Reads-read_i32 : (v : ℕ) → v < 2 ^ 31 → Reads read_i32 (le_bytes 4 v) (pos v)
unfolding read_i32
Reads-read_i32 v h =
    subst (λ n. Reads read_i32 (le_bytes 4 v) n)
      (ap i32_of (from_le-le_bytes 4 v (omega arith)) ∙ i32_of-small v h)
      (subst (λ e. Reads read_i32 e (i32_of (from_le (le_bytes 4 v)))) (append-nil (le_bytes 4 v))
        (Reads-bind _ (Reads-word 4 v)
          (Reads-bind_pure i32_of (Reads-expect_word 4 (le_bytes 4 v) (length-le_bytes 4 v)))))

evaluated_level :
    (level : ℕ)
    → level < 2 ^ 31
    → parse_distributed_branch_level
        (record { code = distributed_branch_level_code; payload = le_bytes 4 level })
      ≡ ok level
unfolding parse_distributed_branch_level decode_distributed as_level
evaluated_level level h =
    Ends-evaluate (read_i32 >>= as_level) (le_bytes 4 level) level
      (subst (λ e. Ends (read_i32 >>= as_level) e level) (append-nil (le_bytes 4 level))
        (Ends-bind as_level (Reads-read_i32 level h) (Ends-pure level)))
      (omega (arith, length-le_bytes 4 level))

-- A child reads the level that its branch sent, and what follows the frame is left, if the level
-- is below 2^31.
pub parse_distributed_branch_level-level_frame :
    (level : ℕ) (rest : Bytes)
    → level < 2 ^ 31
    → received_as parse_distributed_branch_level (level_frame level ++ rest) ≡ ok (level, rest)
unfolding level_frame
parse_distributed_branch_level-level_frame level rest h = rw (
  read_distributed_frame-encode distributed_branch_level_code (le_bytes 4 level) rest
      (omega (arith, length-le_bytes 4 level)),
  evaluated_level level h,
)
