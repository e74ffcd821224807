-- ===== src/Sandbox/Docker/Ends.antt =====
-- How the stream of a container ends, and what `execute` makes of it.
use secure_remote_code_execu.Prelude.{
  ℕ, ◌≡◌, refl, ap, sym, ◌∙◌, Bool, true, false, ◌||◌, Bool-cases, inl, inr, Option, none, some,
  List, [], ◌∷◌, ◌++◌, All, All-append, ◌==◌, list_eq, nat_eq, Result, ok, err,
}
use secure_remote_code_execu.Prelude.Texts.{Text, codes}
use mathlib.Core.List.{append_assoc}
use secure_remote_code_execu.Utf8.{decode_replace}
use secure_remote_code_execu.Sandbox.Models.{ExecutionRequest, status, StreamChunk}
use secure_remote_code_execu.Sandbox.StreamConsumer.{StreamConsumer, new_consumer, consume_stdout}
use secure_remote_code_execu.Sandbox.Process.Stream.{Report, chunk_of}
use secure_remote_code_execu.Sandbox.Process.Stream.Reports.{
  IsOpen, EndsWithReport, cons_some-IsOpen, consume_stdout-IsOpen,
}
use secure_remote_code_execu.Sandbox.Docker.Container.{
  Polls, overtime, poll, State, EngineError, docker_exception, other_exception, Engine,
  container_config, start_from, stdin_payload,
}
use secure_remote_code_execu.Sandbox.Docker.{
  drain, watch, drain_rest, daemon_failure, timeout_notice, Yielded, yield_first, caught, conclude,
  container_chunks, unless_raised, isolated_chunks, docker_stream_execute,
}

module _ (now : Text) where
  drain-IsOpen :
      (items : List (Option (List ℕ))) (c : StreamConsumer) → All IsOpen (drain now items c).0
  unfolding drain
  drain-IsOpen [] c = tt
  drain-IsOpen (none ∷ items) c = tt
  drain-IsOpen (some b ∷ items) c =
      elim (Bool-cases (consume_stdout now (decode_replace b) c).1.limit_exceeded) [
        | inl x ↦
            simp (x) (cons_some-IsOpen _ [] (consume_stdout-IsOpen now (decode_replace b) c) tt)
        | inr n ↦ simp (n) (
            cons_some-IsOpen _ _ (consume_stdout-IsOpen now (decode_replace b) c)
              (drain-IsOpen items (consume_stdout now (decode_replace b) c).1))
      ]

  watch-IsOpen : (polls : Polls) (c : StreamConsumer) → All IsOpen (watch now polls c).0
  unfolding watch
  watch-IsOpen overtime c = tt
  watch-IsOpen (poll items exited rest) c =
      elim (Bool-cases ((drain now items c).1.limit_exceeded || exited)) [
        | inl x ↦ simp (x) (drain-IsOpen items c)
        | inr n ↦ simp (n) (
            All-append IsOpen (drain now items c).0 _ (drain-IsOpen items c)
              (watch-IsOpen rest (drain now items c).1))
      ]

  drain_rest-IsOpen :
      (items : List (Option (List ℕ))) (c : StreamConsumer) → All IsOpen (drain_rest now items c).0
  unfolding drain_rest
  drain_rest-IsOpen [] c = tt
  drain_rest-IsOpen (none ∷ items) c = drain_rest-IsOpen items c
  drain_rest-IsOpen (some b ∷ items) c =
      cons_some-IsOpen _ _ (consume_stdout-IsOpen now (decode_replace b) c)
        (drain_rest-IsOpen items (consume_stdout now (decode_replace b) c).1)

-- A call of the engine raised the exception.
pub data CallRaised (e : Engine) (profile : Option Text) (r : ExecutionRequest) (exc : EngineError)
    : Type 0 where
  creating : e.create (container_config profile r) ≡ some exc → CallRaised e profile r exc
  attaching : e.attach_socket ≡ some exc → CallRaised e profile r exc
  starting : start_from e 0 3 ≡ some exc → CallRaised e profile r exc
  inspecting : e.inspect ≡ err exc → CallRaised e profile r exc

-- One report at the end and none before it; or, if a `DockerException` was raised, no report, and the
-- failure of the engine at the end; or, if another exception was raised, no report, and that exception.
pub data EndsOnce (now : Text) (dumps : Report → Text) (IsRaised : EngineError → Type 0)
    (y : Yielded) : Type 0 where
  reported : EndsWithReport now dumps y.0 → y.1 ≡ none → EndsOnce now dumps IsRaised y
  failed :
      (before : List StreamChunk) (dex : Text)
      → IsRaised (docker_exception dex)
      → y.0 ≡ before ++ daemon_failure now dumps dex ∷ []
      → All IsOpen before
      → y.1 ≡ none
      → EndsOnce now dumps IsRaised y
  raised :
      (exc : Text)
      → IsRaised (other_exception exc)
      → All IsOpen y.0
      → y.1 ≡ some exc
      → EndsOnce now dumps IsRaised y

module _ (now : Text) (dumps : Report → Text) (IsRaised : EngineError → Type 0) where
  caught-EndsOnce :
      (exc : EngineError) → IsRaised exc → EndsOnce now dumps IsRaised (caught now dumps exc)
  caught-EndsOnce (docker_exception dex) i = failed [] dex i refl tt refl
  caught-EndsOnce (other_exception exc) i = raised exc i tt refl

  conclude-EndsOnce :
      (e : Engine) (timed_out limit_exceeded : Bool) (o : Result EngineError State)
      → ((exc : EngineError) → o ≡ err exc → IsRaised exc)
      → EndsOnce now dumps IsRaised (conclude now dumps e timed_out limit_exceeded o)
  conclude-EndsOnce e t l (err exc) i = caught-EndsOnce exc (i exc refl)
  conclude-EndsOnce e t l (ok s) i =
      reported (record { before = []; final = _; is_last = refl; all_open = tt }) refl

  timeout_notice-IsOpen :
      (e : Engine) (r : ExecutionRequest) (t : Bool) → All IsOpen (timeout_notice now dumps e r t)
  timeout_notice-IsOpen e r true = (refl, tt)
  timeout_notice-IsOpen e r false = tt

  yield_first-EndsOnce :
      (front : List StreamChunk) (y : Yielded)
      → All IsOpen front
      → EndsOnce now dumps IsRaised y
      → EndsOnce now dumps IsRaised (yield_first front y)
  yield_first-EndsOnce front y o (reported h n) =
      reported
        (record {
          before = front ++ h.before;
          final = h.final;
          is_last = ap (λ l. front ++ l) h.is_last ∙ sym (append_assoc front h.before _);
          all_open = All-append IsOpen front h.before o h.all_open;
        })
        n
  yield_first-EndsOnce front y o (failed before dex i e h n) =
      failed (front ++ before) dex i (ap (λ l. front ++ l) e ∙ sym (append_assoc front before _))
        (All-append IsOpen front before o h) n
  yield_first-EndsOnce front y o (raised exc i h n) =
      raised exc i (All-append IsOpen front y.0 o h) n

  unless_raised-EndsOnce :
      (o : Option EngineError) (y : Yielded)
      → ((exc : EngineError) → o ≡ some exc → IsRaised exc)
      → EndsOnce now dumps IsRaised y
      → EndsOnce now dumps IsRaised (unless_raised now dumps o y)
  unless_raised-EndsOnce none y i h = h
  unless_raised-EndsOnce (some exc) y i h = caught-EndsOnce exc (i exc refl)

module _ (now : Text) (dumps : Report → Text) (e : Engine) (profile : Option Text)
    (r : ExecutionRequest) where
  container_chunks-EndsOnce :
      EndsOnce now dumps (CallRaised e profile r) (container_chunks now dumps e r)
  unfolding container_chunks
  container_chunks-EndsOnce =
      let session = e.session (stdin_payload r.stdin_data) in
      let watched = watch now session.polls (new_consumer r.max_output_bytes) in
      let rest = drain_rest now session.remaining watched.1 in
      yield_first-EndsOnce now dumps (CallRaised e profile r) watched.0 _
        (watch-IsOpen now session.polls (new_consumer r.max_output_bytes))
        (yield_first-EndsOnce now dumps (CallRaised e profile r) rest.0 _
          (drain_rest-IsOpen now session.remaining watched.1)
          (yield_first-EndsOnce now dumps (CallRaised e profile r)
            (timeout_notice now dumps e r watched.2) _
            (timeout_notice-IsOpen now dumps (CallRaised e profile r) e r watched.2)
            (conclude-EndsOnce now dumps (CallRaised e profile r) e watched.2 rest.1.limit_exceeded
              e.inspect (λ exc i. inspecting i))))

  -- For a Python program: the stream ends with its only complete chunk; or a call of the engine raised
  -- a `DockerException`, and the stream ends with it as an error and has no complete chunk; or a call
  -- raised another exception, which the stream raises too, and there is no complete chunk.
  pub docker_stream_execute-EndsOnce :
      (fallback : Yielded)
      → (e.lower r.language == codes "python") ≡ true
      → EndsOnce now dumps
          (CallRaised e profile r)
          (docker_stream_execute now dumps e profile fallback r)
  unfolding docker_stream_execute isolated_chunks
  docker_stream_execute-EndsOnce fallback python =
      let P : EngineError → Type 0 = CallRaised e profile r in
      let first = chunk_of now status (codes "Initializing isolated sandbox container...") in
      simp (python) (
        yield_first-EndsOnce now dumps P (first ∷ []) _ (refl, tt)
          (unless_raised-EndsOnce now dumps P (e.create (container_config profile r)) _
            (λ exc i. creating i)
            (unless_raised-EndsOnce now dumps P e.attach_socket _ (λ exc i. attaching i)
              (unless_raised-EndsOnce now dumps P (start_from e 0 3) _ (λ exc i. starting i)
                container_chunks-EndsOnce))))
