-- ===== src/Sandbox/StreamConsumer/Cap.antt =====
-- What a consumer keeps of a program's output, over any sequence of chunks.
use mathlib.Core.List.{append_assoc, append-nil}
use secure_remote_code_execu.Prelude.{
  ℕ, ◌+◌, ◌≤◌, ◌<◌, ◌≡◌, ◌↔◌, refl, true, List, [], ◌∷◌, ◌++◌, All, Bool-cases, inl, inr, arith,
}
use secure_remote_code_execu.Prelude.Texts.{Text}
use secure_remote_code_execu.Utf8.{encode}
use secure_remote_code_execu.Sandbox.StreamConsumer.{
  StreamConsumer, new_consumer, byte_size, consume_stdout, consume_stderr, get_full_stdout,
  get_full_stderr,
}
use secure_remote_code_execu.Sandbox.StreamConsumer.Holds.{
  Chunk, out, err, IsText, consume, consume_all, written_out, written_err, IsPrefix, Holds,
}
use secure_remote_code_execu.Sandbox.StreamConsumer.Steps.{
  consume_stdout-Holds, consume_stderr-Holds,
}

-- The two streams together.
abbrev pub written : List Chunk → ℕ
written xs = byte_size (written_out xs) + byte_size (written_err xs)

module _ (now : Text) (m : ℕ) where
  consume_all-Holds :
      (xs : List Chunk) (o e : Text) (c : StreamConsumer)
      → All IsText xs
      → Holds m o e c
      → Holds m (o ++ written_out xs) (e ++ written_err xs) (consume_all now xs c)
  unfolding consume consume_all
  consume_all-Holds [] o e c s h = rw (append-nil o, append-nil e) h
  consume_all-Holds (out t ∷ xs) o e c s h = rw (← append_assoc o t (written_out xs)) (
      consume_all-Holds xs (o ++ t) e (consume_stdout now t c).1 s.1
        (consume_stdout-Holds m o e c t h now s.0))
  consume_all-Holds (err t ∷ xs) o e c s h = rw (← append_assoc e t (written_err xs)) (
      consume_all-Holds xs o (e ++ t) (consume_stderr now t c).1 s.1
        (consume_stderr-Holds m o e c t h now))

  new_consumer-Holds : Holds m [] [] (new_consumer m)
  unfolding get_full_stdout get_full_stderr encode
  new_consumer-Holds = record {
    cap = refl;
    below = omega arith;
    bytes = omega arith;
    open_out = λ _. refl;
    open_err = λ _. refl;
    open_total = λ _. refl;
    out_prefix = ([], refl);
    err_prefix = ([], refl);
    closed = λ full. absurd (cc full);
  }

  module _ (xs : List Chunk) (texts : All IsText xs) where
    abbrev final : StreamConsumer
    final = consume_all now xs (new_consumer m)

    final-Holds : Holds m (written_out xs) (written_err xs) final
    final-Holds = consume_all-Holds xs [] [] (new_consumer m) texts new_consumer-Holds

    -- Whatever is written in whatever order, what a new consumer keeps of the two streams, encoded,
    -- takes no more bytes than its cap, and is a beginning of what each stream wrote.
    pub consume_all_capped :
        (byte_size (get_full_stdout final) + byte_size (get_full_stderr final) ≤ m)
        × IsPrefix (get_full_stdout final) (written_out xs)
        × IsPrefix (get_full_stderr final) (written_err xs)
    consume_all_capped = (
      omega (arith, final-Holds.bytes, final-Holds.below),
      final-Holds.out_prefix,
      final-Holds.err_prefix,
    )

    -- The limit counts as exceeded exactly if the two streams together wrote more bytes than the cap.
    pub limit_exceeded_iff : (final.limit_exceeded ≡ true) ↔ (m < written xs)
    limit_exceeded_iff = (
      final-Holds.closed,
      λ over. elim (Bool-cases final.limit_exceeded) [
        | inl full ↦ full
        | inr room ↦ absurd (omega (arith, final-Holds.open_total room, final-Holds.below))
      ],
    )

    -- If the two streams together wrote no more bytes than the cap, all that was written is kept.
    pub consume_all_keeps :
        written xs ≤ m
        → (get_full_stdout final ≡ written_out xs) × (get_full_stderr final ≡ written_err xs)
    consume_all_keeps fits = elim (Bool-cases final.limit_exceeded) [
      | inl full ↦ absurd (omega (arith, final-Holds.closed full))
      | inr room ↦ (final-Holds.open_out room, final-Holds.open_err room)
    ]
