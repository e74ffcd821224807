-- ===== src/Sandbox/Tests.antt =====
-- Concrete runs of the sandbox code, and its theorems at them.
use secure_remote_code_execu.Prelude.{inl, ◌+◌, refl, ◌≤◌, ◌≡◌, List, [], ◌∷◌, All, arith}
use secure_remote_code_execu.Prelude.Texts.{codes}
use secure_remote_code_execu.Utf8.{encode, encode_char, decode_ignore}
use secure_remote_code_execu.Sandbox.StreamConsumer.{
  new_consumer, byte_size, get_full_stdout, get_full_stderr, consume_stdout, consume_stderr,
}
use secure_remote_code_execu.Sandbox.StreamConsumer.Holds.{
  Chunk, out, err, IsText, consume, consume_all, written_out, written_err, IsPrefix,
}
use secure_remote_code_execu.Sandbox.StreamConsumer.Cap.{consume_all_capped}

-- Two chunks that fit, and one that does not: é is two bytes.
abbrev small : List Chunk
small = out (codes "ab") ∷ (err (codes "e") ∷ [])

abbrev large : List Chunk
large = out (codes "ab") ∷ (err (codes "e") ∷ (out (codes "cdé") ∷ []))

small-IsText : All IsText small
small-IsText = ((inl (omega arith), (inl (omega arith), tt)), ((inl (omega arith), tt), tt))

large-IsText : All IsText large
large-IsText = (
  (inl (omega arith), (inl (omega arith), tt)),
  (
    (inl (omega arith), tt),
    ((inl (omega arith), (inl (omega arith), (inl (omega arith), tt))), tt),
  ),
)

consume_all_capped_example :
    (byte_size (get_full_stdout (consume_all [] large (new_consumer 6)))
        + byte_size (get_full_stderr (consume_all [] large (new_consumer 6)))
      ≤ 6)
    × IsPrefix (get_full_stdout (consume_all [] large (new_consumer 6))) (written_out large)
    × IsPrefix (get_full_stderr (consume_all [] large (new_consumer 6))) (written_err large)
consume_all_capped_example = consume_all_capped [] 6 large large-IsText

-- The character that does not fit is dropped, and the rest of the chunk is kept.
get_full_stdout-large : get_full_stdout (consume_all [] large (new_consumer 6)) ≡ codes "abcd"
unfolding get_full_stdout consume_all consume consume_stdout consume_stderr encode decode_ignore
    encode_char
get_full_stdout-large = refl
