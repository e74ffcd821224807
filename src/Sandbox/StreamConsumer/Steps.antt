-- ===== src/Sandbox/StreamConsumer/Steps.antt =====
-- Each call of a consumer keeps `Holds`.
use mathlib.Core.List.{append-nil}
use secure_remote_code_execu.Prelude.{
  ℕ, ◌+◌, ◌-◌, ◌≤◌, ◌<◌, ◌≡◌, ap, ◌∙◌, true, false, [], ◌∷◌, ◌++◌, take, All, ltb, Bool-cases, inl,
  inr, arith,
}
use secure_remote_code_execu.Prelude.Texts.{Text, join}
use secure_remote_code_execu.Utf8.{encode, decode_ignore}
use secure_remote_code_execu.Utf8.Laws.{IsScalar}
use secure_remote_code_execu.Utf8.Truncation.{fit, decode_ignore-take, length-encode-fit}
use secure_remote_code_execu.Sandbox.StreamConsumer.{
  StreamConsumer, byte_size, consume_stdout, consume_stderr, get_full_stdout, get_full_stderr,
}
use secure_remote_code_execu.Sandbox.StreamConsumer.Holds.{
  Holds, join-snoc, fit-IsPrefix, IsPrefix-append, append-IsPrefix, byte_size-append,
}

module _ (m : ℕ) (o e : Text) (c : StreamConsumer) (t : Text) (h : Holds m o e c) where
  -- A consumer that is full takes nothing more, from either stream.
  full_out-Holds : c.limit_exceeded ≡ true → Holds m (o ++ t) e c
  full_out-Holds full = record {
    cap = h.cap;
    below = h.below;
    bytes = h.bytes;
    open_out = λ room. absurd (cc (full, room));
    open_err = λ room. absurd (cc (full, room));
    open_total = λ room. absurd (cc (full, room));
    out_prefix = IsPrefix-append (get_full_stdout c) o t h.out_prefix;
    err_prefix = h.err_prefix;
    closed = λ _. omega (arith, h.closed full, byte_size-append o t);
  }

  full_err-Holds : c.limit_exceeded ≡ true → Holds m o (e ++ t) c
  full_err-Holds full = record {
    cap = h.cap;
    below = h.below;
    bytes = h.bytes;
    open_out = λ room. absurd (cc (full, room));
    open_err = λ room. absurd (cc (full, room));
    open_total = λ room. absurd (cc (full, room));
    out_prefix = h.out_prefix;
    err_prefix = IsPrefix-append (get_full_stderr c) e t h.err_prefix;
    closed = λ _. omega (arith, h.closed full, byte_size-append e t);
  }

  module _ (room : c.limit_exceeded ≡ false) where
    over_out-Holds :
        All IsScalar t
        → c.max_bytes < c.total_bytes + byte_size t
        → Holds m (o ++ t) e (record c {
          total_bytes = c.total_bytes + (c.max_bytes - c.total_bytes);
          limit_exceeded = true;
          stdout_buffer =
              c.stdout_buffer ++ decode_ignore (take (c.max_bytes - c.total_bytes) (encode t)) ∷ [];
        })
    unfolding get_full_stdout get_full_stderr
    over_out-Holds scalar over =
        let allowed = c.max_bytes - c.total_bytes in
        let cut = decode_ignore-take t allowed scalar in
        let joined = join-snoc c.stdout_buffer (decode_ignore (take allowed (encode t))) in
        record {
          cap = h.cap;
          below = omega (arith, h.cap, h.below);
          bytes =
              rw (joined, cut)
                (omega (
                  arith,
                  h.bytes,
                  byte_size-append (join [] c.stdout_buffer) (fit allowed t),
                  length-encode-fit allowed t,
                ));
          open_out = λ ne. absurd (cc ne);
          open_err = λ ne. absurd (cc ne);
          open_total = λ ne. absurd (cc ne);
          out_prefix =
              rw (joined, cut, h.open_out room)
                (append-IsPrefix o (fit allowed t) t (fit-IsPrefix allowed t));
          err_prefix = h.err_prefix;
          closed = λ _. omega (arith, h.cap, over, h.open_total room, byte_size-append o t);
        }

    over_err-Holds :
        c.max_bytes < c.total_bytes + byte_size t
        → Holds m o (e ++ t) (record c { limit_exceeded = true })
    unfolding get_full_stdout get_full_stderr
    over_err-Holds over = record {
      cap = h.cap;
      below = h.below;
      bytes = h.bytes;
      open_out = λ ne. absurd (cc ne);
      open_err = λ ne. absurd (cc ne);
      open_total = λ ne. absurd (cc ne);
      out_prefix = h.out_prefix;
      err_prefix = IsPrefix-append (get_full_stderr c) e t h.err_prefix;
      closed = λ _. omega (arith, h.cap, over, h.open_total room, byte_size-append e t);
    }

    fits_out-Holds :
        c.total_bytes + byte_size t ≤ c.max_bytes
        → Holds m (o ++ t) e (record c {
          total_bytes = c.total_bytes + byte_size t;
          limit_exceeded = false;
          stdout_buffer = c.stdout_buffer ++ t ∷ [];
        })
    unfolding get_full_stdout get_full_stderr
    fits_out-Holds fits =
        let joined = join-snoc c.stdout_buffer t in
        let same = joined ∙ ap (λ x. x ++ t) (h.open_out room) in
        record {
          cap = h.cap;
          below = omega (arith, h.cap, fits);
          bytes = rw joined (omega (arith, h.bytes, byte_size-append (join [] c.stdout_buffer) t));
          open_out = λ _. same;
          open_err = λ _. h.open_err room;
          open_total = λ _. omega (arith, h.open_total room, byte_size-append o t);
          out_prefix = ([], append-nil _ ∙ same);
          err_prefix = h.err_prefix;
          closed = λ full. absurd (cc full);
        }

    fits_err-Holds :
        c.total_bytes + byte_size t ≤ c.max_bytes
        → Holds m o (e ++ t) (record c {
          total_bytes = c.total_bytes + byte_size t;
          limit_exceeded = false;
          stderr_buffer = c.stderr_buffer ++ t ∷ [];
        })
    unfolding get_full_stdout get_full_stderr
    fits_err-Holds fits =
        let joined = join-snoc c.stderr_buffer t in
        let same = joined ∙ ap (λ x. x ++ t) (h.open_err room) in
        record {
          cap = h.cap;
          below = omega (arith, h.cap, fits);
          bytes = rw joined (omega (arith, h.bytes, byte_size-append (join [] c.stderr_buffer) t));
          open_out = λ _. h.open_out room;
          open_err = λ _. same;
          open_total = λ _. omega (arith, h.open_total room, byte_size-append e t);
          out_prefix = h.out_prefix;
          err_prefix = ([], append-nil _ ∙ same);
          closed = λ full. absurd (cc full);
        }

  pub consume_stdout-Holds :
      (now : Text) → All IsScalar t → Holds m (o ++ t) e (consume_stdout now t c).1
  unfolding consume_stdout
  consume_stdout-Holds now scalar = elim (Bool-cases c.limit_exceeded) [
    | inl full ↦ simp full (full_out-Holds full)
    | inr room ↦ elim (Bool-cases (ltb c.max_bytes (c.total_bytes + byte_size t))) [
      | inl over ↦ simp (room, over) (over_out-Holds room scalar (ground arith))
      | inr fits ↦ simp (room, fits) (fits_out-Holds room (ground arith))
    ]
  ]

  pub consume_stderr-Holds : (now : Text) → Holds m o (e ++ t) (consume_stderr now t c).1
  unfolding consume_stderr
  consume_stderr-Holds now = elim (Bool-cases c.limit_exceeded) [
    | inl full ↦ simp full (full_err-Holds full)
    | inr room ↦ elim (Bool-cases (ltb c.max_bytes (c.total_bytes + byte_size t))) [
      | inl over ↦ simp (room, over) (over_err-Holds room (ground arith))
      | inr fits ↦ simp (room, fits) (fits_err-Holds room (ground arith))
    ]
  ]
