-- ===== src/Sandbox/Process/Stream.antt =====
-- worker/sandbox/process_sandbox.py: `stream_execute`, as the list of the chunks that it yields. The
-- two pumps are the sequence of their reads, in the order in which the consumer gets them; the time
-- stamp of a chunk and `json.dumps` of the final report are arguments.
pub mod Reports
pub mod Status
use secure_remote_code_execu.Prelude.{
  ℕ, Bool, true, false, Option, none, some, List, [], ◌∷◌, ◌++◌, map, Result, ok, err,
  if◌then◌else◌,
}
use secure_remote_code_execu.Prelude.Texts.{Text, codes, text_or}
use secure_remote_code_execu.Prelude.Int.{ℤ, pos, negsuc, is_zero}
use secure_remote_code_execu.Sandbox.Models.{
  ExecutionStatus, compile_error, system_error, status_value, ExecutionRequest, StreamEventType,
  status, error, complete, StreamChunk,
}
use secure_remote_code_execu.Sandbox.Polyglot.Strategy.{Strategy}
use secure_remote_code_execu.Sandbox.StreamConsumer.{
  StreamConsumer, new_consumer, consume_stdout, consume_stderr,
}
use secure_remote_code_execu.Sandbox.StreamConsumer.Holds.{Chunk, out, err}
use secure_remote_code_execu.Utf8.{decode_replace}
use secure_remote_code_execu.Sandbox.Process.{
  Compilation, exited, not_found, overtime, failed, first_word, classify, source_name, input_of,
}
use secure_remote_code_execu.Sandbox.Process.Command.{
  Platform, adapt_compile_command_for_platform, binary_name,
}

-- How the output of a program ends: both pumps reach the end, with the return code if the process
-- is gone two seconds later, or the wait for the next chunk times out.
pub data Ending : Type 0 where
  closed : Option ℤ → Ending
  timed_out : Ending

-- A read of a pump: at most 1024 bytes of one of the two streams.
pub data Read : Type 0 where
  out_bytes err_bytes : List ℕ → Read

-- `data.decode("utf-8", errors="replace")`, of each read by itself
abbrev pub decode_read : Read → Chunk
decode_read (out_bytes b) = out (decode_replace b)
decode_read (err_bytes b) = err (decode_replace b)

-- What came of the program: its reads and how they end, or the exception of starting it.
pub data Session : Type 0 where
  started : List Read → Ending → Session
  not_started : Text → Session

-- `directory` is the exception of making the temporary directory, `prepare` that of writing the source
-- into it.
pub record StreamHost : Type 0 where
  pub platform : Platform
  pub directory : Option Text
  pub prepare : Option Text
  pub in_directory : Text → Text
  pub compile : List Text → Compilation
  pub session : List Text → Option Text → ℕ → Session
  pub elapsed_ms : ℕ
  pub show_seconds : ℕ → Text

-- `complete_payload`
pub record Report : Type 0 where
  pub outcome : Text
  pub exit_code : Option ℤ
  pub duration_ms : ℕ
  pub oom_killed : Bool
  pub compile_output : Option Text

abbrev pub run_report : ExecutionStatus → Option ℤ → ℕ → Report
run_report s code ms = record {
  outcome = status_value s;
  exit_code = code;
  duration_ms = ms;
  oom_killed = false;
  compile_output = none;
}

abbrev pub compile_report : ℤ → ℕ → Text → Report
compile_report code ms output = record {
  outcome = status_value compile_error;
  exit_code = some code;
  duration_ms = ms;
  oom_killed = false;
  compile_output = some output;
}

abbrev pub limit_of : Ending → Bool
limit_of (closed code) = false
limit_of timed_out = true

-- `process.returncode if not timed_out else -9`
abbrev pub code_of : Ending → Option ℤ
code_of (closed code) = code
code_of timed_out = some (negsuc 8)

abbrev pub cons_some : Option StreamChunk → List StreamChunk → List StreamChunk
cons_some none chunks = chunks
cons_some (some c) chunks = c ∷ chunks

module _ (now : Text) where
  abbrev pub chunk_of : StreamEventType → Text → StreamChunk
  chunk_of event text = record { event = event; payload = text; timestamp = now }

  -- The texts that the two pumps decode, through the consumer into the queue.
  unfoldable pub pump_texts : List Chunk → StreamConsumer → List StreamChunk × StreamConsumer
  pump_texts [] c = ([], c)
  pump_texts (out t ∷ reads) c =
      let (chunk, c') = consume_stdout now t c in
      let (chunks, last) = pump_texts reads c' in (cons_some chunk chunks, last)
  pump_texts (err t ∷ reads) c =
      let (chunk, c') = consume_stderr now t c in
      let (chunks, last) = pump_texts reads c' in (cons_some chunk chunks, last)

  unfoldable pub pump : List Read → StreamConsumer → List StreamChunk × StreamConsumer
  unfolding pump_texts
  pump reads c = pump_texts (map decode_read reads) c

  -- The status at the end of a run.
  unfoldable pub final_status : ExecutionRequest → List Read → Ending → ExecutionStatus
  final_status r reads ending =
      classify (limit_of ending) (pump reads (new_consumer r.max_output_bytes)).1.limit_exceeded
        (code_of ending)

module _ (now : Text) (dumps : Report → Text) where
  abbrev timeout_chunks : StreamHost → ExecutionRequest → Ending → List StreamChunk
  timeout_chunks host r (closed code) = []
  timeout_chunks host r timed_out =
      chunk_of now error (
        10
        ∷ (codes "[SYSTEM: Execution exceeded wall-clock timeout of "
            ++ (host.show_seconds r.timeout_ms ++ codes "s.]")))
      ∷ []

  abbrev fatal : Text → List StreamChunk
  fatal exc =
      chunk_of now error (10 ∷ (codes "[SYSTEM: Fatal execution failure: " ++ (exc ++ codes "]")))
      ∷ (chunk_of now complete (dumps (run_report system_error none 0)) ∷ [])

  -- The execution phase.
  unfoldable pub session_chunks : StreamHost → ExecutionRequest → Session → List StreamChunk
  session_chunks host r (not_started exc) = fatal exc
  session_chunks host r (started reads ending) =
      (pump now reads (new_consumer r.max_output_bytes)).0
      ++ (timeout_chunks host r ending
          ++ chunk_of now complete (
              dumps (run_report (final_status now r reads ending) (code_of ending) host.elapsed_ms))
            ∷ [])

  unfoldable pub stream_run : StreamHost → ExecutionRequest → Strategy → Text → List StreamChunk
  stream_run host r strategy target_exec = session_chunks host r (
      host.session (strategy.get_execution_command target_exec) (input_of r.stdin_data)
        r.timeout_ms)

  abbrev refused : ℤ → ℕ → Text → List StreamChunk
  refused code ms output =
      chunk_of now error output
      ∷ (chunk_of now complete (dumps (compile_report code ms output)) ∷ [])

  -- The chunks that end the call in the compilation phase, if it does not go on.
  unfoldable pub stream_compile : StreamHost → List Text → Compilation → Option (List StreamChunk)
  stream_compile host command (exited code err_text out_text) =
      if is_zero code then none else some (refused code host.elapsed_ms (text_or err_text out_text))
  stream_compile host command (not_found fnf) = some (
      refused (pos 127) 0 (
        codes "Compiler '"
        ++ (first_word command ++ (codes "' not installed on host: " ++ (fnf ++ 10 ∷ [])))))
  stream_compile host command overtime =
      some
        (refused (negsuc 8) 10000 (codes "[SYSTEM: Compilation timed out after 10.0s]" ++ 10 ∷ []))
  stream_compile host command (failed exc) = some (fatal exc)

  abbrev go_on : List StreamChunk → Option (List StreamChunk) → List StreamChunk
  go_on later (some chunks) = chunks
  go_on later none =
      chunk_of now status (codes "Compilation successful. Initializing execution sandbox...")
      ∷ later

  unfoldable pub stream_phases : StreamHost → ExecutionRequest → Strategy → List StreamChunk
  stream_phases host r strategy =
      let command = adapt_compile_command_for_platform host.platform (
        strategy.get_compile_command (host.in_directory (source_name strategy))
          (host.in_directory (binary_name host.platform))) in
      if strategy.is_compiled
      then chunk_of now status
          (codes "Compiling " ++ (strategy.display_name ++ codes " source code..."))
        ∷ go_on (stream_run host r strategy (host.in_directory (binary_name host.platform)))
            (stream_compile host command (host.compile command))
      else chunk_of now status
          (codes "Initializing " ++ (strategy.display_name ++ codes " execution runtime..."))
        ∷ stream_run host r strategy (host.in_directory (source_name strategy))

  unfoldable pub stream_with :
      StreamHost → ExecutionRequest → Strategy → Option Text → List StreamChunk
  stream_with host r strategy (some exc) = fatal exc
  stream_with host r strategy none = stream_phases host r strategy

  abbrev pub in_new_directory :
      StreamHost → ExecutionRequest → Strategy → Option Text → Result Text (List StreamChunk)
  in_new_directory host r strategy (some exc) = Result.err exc
  in_new_directory host r strategy none = ok (stream_with host r strategy host.prepare)

  -- `stream_execute`; the `ValueError` of a language that is not supported is raised, and so is an
  -- exception of making the directory, before the `try`.
  unfoldable pub stream_execute :
      StreamHost → ExecutionRequest → Result Text Strategy → Result Text (List StreamChunk)
  stream_execute host r (Result.err e) = Result.err e
  stream_execute host r (ok strategy) = in_new_directory host r strategy host.directory
