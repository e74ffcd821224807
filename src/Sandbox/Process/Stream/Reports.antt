-- ===== src/Sandbox/Process/Stream/Reports.antt =====
-- What every stream ends with, and the status that it reports.
use mathlib.Core.List.{append_assoc}
use secure_remote_code_execu.Prelude.{
  ◌≡◌, ◌⊎◌, Option-cases, Result, refl, ap, sym, Bool, true, false, Bool-cases, inl, inr, ok,
  Option, none, some, List, [], ◌∷◌, ◌++◌, map, All, All-append, ltb, ◌+◌,
}
use secure_remote_code_execu.Prelude.Texts.{Text}
use secure_remote_code_execu.Prelude.Int.{is_zero}
use secure_remote_code_execu.Sandbox.Models.{ExecutionRequest, error, complete, StreamChunk}
use secure_remote_code_execu.Sandbox.Polyglot.Strategy.{Strategy}
use secure_remote_code_execu.Sandbox.StreamConsumer.{
  StreamConsumer, byte_size, new_consumer, consume_stdout, consume_stderr,
}
use secure_remote_code_execu.Sandbox.StreamConsumer.Holds.{Chunk, out, err}
use secure_remote_code_execu.Sandbox.Process.{Compilation, exited, not_found, overtime, failed}
use secure_remote_code_execu.Sandbox.Process.Stream.{
  StreamHost, Session, started, not_started, closed, timed_out, Report, chunk_of, pump_texts, Read,
  decode_read, pump, session_chunks, stream_run, stream_compile, go_on, stream_phases, stream_with,
  stream_execute, cons_some, fatal,
}

abbrev pub is_complete : StreamChunk → Bool
is_complete c = elim c.event [ complete ↦ true | _ ↦ false ]

abbrev pub IsOpen : StreamChunk → Type 0
IsOpen c = is_complete c ≡ false

-- One report, and it is the last chunk.
pub record EndsWithReport (now : Text) (dumps : Report → Text) (chunks : List StreamChunk)
    : Type 0 where
  pub before : List StreamChunk
  pub final : Report
  pub is_last : chunks ≡ before ++ chunk_of now complete (dumps final) ∷ []
  pub all_open : All IsOpen before

module _ (now : Text) (dumps : Report → Text) where
  EndsWithReport-cons :
      (c : StreamChunk) (chunks : List StreamChunk)
      → IsOpen c
      → EndsWithReport now dumps chunks
      → EndsWithReport now dumps (c ∷ chunks)
  EndsWithReport-cons c chunks o h = record {
    before = c ∷ h.before;
    final = h.final;
    is_last = ap (λ l. c ∷ l) h.is_last;
    all_open = (o, h.all_open);
  }

  fatal-EndsWithReport : (exc : Text) → EndsWithReport now dumps (fatal now dumps exc)
  fatal-EndsWithReport exc = record {
    before = chunk_of now error _ ∷ [];
    final = _;
    is_last = refl;
    all_open = (refl, tt);
  }

abbrev pub IsOpenOption : Option StreamChunk → Type 0
IsOpenOption none = Unit
IsOpenOption (some c) = IsOpen c

pub cons_some-IsOpen :
    (o : Option StreamChunk) (chunks : List StreamChunk)
    → IsOpenOption o
    → All IsOpen chunks
    → All IsOpen (cons_some o chunks)
cons_some-IsOpen none chunks h k = k
cons_some-IsOpen (some c) chunks h k = (h, k)

module _ (now : Text) where
  pub consume_stdout-IsOpen :
      (t : Text) (c : StreamConsumer) → IsOpenOption (consume_stdout now t c).0
  unfolding consume_stdout
  consume_stdout-IsOpen t c = elim (Bool-cases c.limit_exceeded) [
    | inl f ↦ rw (f) tt
    | inr n ↦ elim (Bool-cases (ltb c.max_bytes (c.total_bytes + byte_size t))) [
      | inl f ↦ rw (n, f) refl
      | inr m ↦ rw (n, m) refl
    ]
  ]

  consume_stderr-IsOpen : (t : Text) (c : StreamConsumer) → IsOpenOption (consume_stderr now t c).0
  unfolding consume_stderr
  consume_stderr-IsOpen t c = elim (Bool-cases c.limit_exceeded) [
    | inl f ↦ rw (f) tt
    | inr n ↦ elim (Bool-cases (ltb c.max_bytes (c.total_bytes + byte_size t))) [
      | inl f ↦ rw (n, f) refl
      | inr m ↦ rw (n, m) refl
    ]
  ]

  pump_texts-IsOpen :
      (reads : List Chunk) (c : StreamConsumer) → All IsOpen (pump_texts now reads c).0
  unfolding pump_texts
  pump_texts-IsOpen [] c = tt
  pump_texts-IsOpen (out t ∷ reads) c =
      cons_some-IsOpen _ _ (consume_stdout-IsOpen t c) (pump_texts-IsOpen reads _)
  pump_texts-IsOpen (err t ∷ reads) c =
      cons_some-IsOpen _ _ (consume_stderr-IsOpen t c) (pump_texts-IsOpen reads _)

  pump-IsOpen : (reads : List Read) (c : StreamConsumer) → All IsOpen (pump now reads c).0
  unfolding pump
  pump-IsOpen reads c = pump_texts-IsOpen (map decode_read reads) c

module _ (now : Text) (dumps : Report → Text) where
  session_chunks-EndsWithReport :
      (host : StreamHost) (r : ExecutionRequest) (session : Session)
      → EndsWithReport now dumps (session_chunks now dumps host r session)
  unfolding session_chunks
  session_chunks-EndsWithReport host r (not_started exc) = fatal-EndsWithReport now dumps exc
  session_chunks-EndsWithReport host r (started reads (closed code)) = record {
    before = (pump now reads (new_consumer r.max_output_bytes)).0;
    final = _;
    is_last = refl;
    all_open = pump-IsOpen now reads _;
  }
  session_chunks-EndsWithReport host r (started reads timed_out) = record {
    before = (pump now reads (new_consumer r.max_output_bytes)).0 ++ chunk_of now error _ ∷ [];
    final = _;
    is_last = sym (append_assoc (pump now reads (new_consumer r.max_output_bytes)).0 _ _);
    all_open = All-append IsOpen _ _ (pump-IsOpen now reads _) (refl, tt);
  }

  go_on-EndsWithReport :
      (host : StreamHost) (command : List Text) (later : List StreamChunk) (c : Compilation)
      → EndsWithReport now dumps later
      → EndsWithReport now dumps (go_on now dumps later (stream_compile now dumps host command c))
  unfolding stream_compile
  go_on-EndsWithReport host command later (exited code e o) h = elim (Bool-cases (is_zero code)) [
    | inl z ↦ rw (z) (EndsWithReport-cons now dumps _ later refl h)
    | inr n ↦ rw (n) (record { before = _ ∷ []; final = _; is_last = refl; all_open = (refl, tt) })
  ]
  go_on-EndsWithReport host command later (not_found fnf) h = record {
    before = chunk_of now error _ ∷ [];
    final = _;
    is_last = refl;
    all_open = (refl, tt);
  }
  go_on-EndsWithReport host command later overtime h = record {
    before = chunk_of now error _ ∷ [];
    final = _;
    is_last = refl;
    all_open = (refl, tt);
  }
  go_on-EndsWithReport host command later (failed exc) h = fatal-EndsWithReport now dumps exc

  stream_phases-EndsWithReport :
      (host : StreamHost) (r : ExecutionRequest) (s : Strategy)
      → EndsWithReport now dumps (stream_phases now dumps host r s)
  unfolding stream_phases stream_run
  stream_phases-EndsWithReport host r s = elim (Bool-cases s.is_compiled) [
    | inl c ↦ rw (c) (
        EndsWithReport-cons now dumps _ _ refl
          (go_on-EndsWithReport host _ _ _ (session_chunks-EndsWithReport host r _)))
    | inr i ↦
        rw (i) (EndsWithReport-cons now dumps _ _ refl (session_chunks-EndsWithReport host r _))
  ]

  stream_with-EndsWithReport :
      (host : StreamHost) (r : ExecutionRequest) (s : Strategy) (exc : Option Text)
      → EndsWithReport now dumps (stream_with now dumps host r s exc)
  unfolding stream_with
  stream_with-EndsWithReport host r s none = stream_phases-EndsWithReport host r s
  stream_with-EndsWithReport host r s (some exc) = fatal-EndsWithReport now dumps exc

  -- Once the temporary directory is made, whatever the machine does then, for a language that is
  -- supported: the stream ends with a chunk of the event `complete` that carries a final report, and no
  -- earlier chunk has this event. If the directory cannot be made, the call raises.
  pub stream_execute-EndsWithReport :
      (host : StreamHost) (r : ExecutionRequest) (s : Strategy)
      → ((exc : Text) × (host.directory ≡ some exc)
          × (stream_execute now dumps host r (ok s) ≡ Result.err exc))
        ⊎ ((chunks : List StreamChunk) × (host.directory ≡ none)
            × (stream_execute now dumps host r (ok s) ≡ ok chunks)
            × EndsWithReport now dumps chunks)
  unfolding stream_execute
  stream_execute-EndsWithReport host r s = elim (Option-cases host.directory) [
    | inl made ↦ inr (
      stream_with now dumps host r s host.prepare,
      made,
      simp (made) refl,
      stream_with-EndsWithReport host r s host.prepare,
    )
    | inr (exc, e) ↦ inl (exc, e, simp (e) refl)
  ]
