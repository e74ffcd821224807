-- ===== src/Sandbox/Docker.antt =====
-- worker/sandbox/docker_sandbox.py: `DockerSandbox.stream_execute` and `execute`. The container engine
-- is an argument: the exception of each call or none, what each turn of the loop finds in the queue,
-- and the state that inspecting the container gives. A stream is the list of the chunks that are
-- yielded, with the exception that ends it, if any. A language other than Python goes to the process
-- sandbox, whose answers are arguments.
pub mod Container
pub mod Ends
pub mod Live
pub mod Overtime
mod Tests
use secure_remote_code_execu.Prelude.{
  ℕ, zero, suc, ◌+◌, Bool, true, false, not, ◌&&◌, ◌||◌, Option, none, some, List, [], ◌∷◌, ◌++◌,
  ltb, ◌==◌, list_eq, nat_eq, if◌then◌else◌, Result, ok, err,
}
use secure_remote_code_execu.Prelude.Texts.{Text, codes, contains}
use secure_remote_code_execu.Prelude.Int.{ℤ, pos, negsuc, is_zero}
use secure_remote_code_execu.Utf8.{decode_replace}
use secure_remote_code_execu.Sandbox.Models.{
  ExecutionStatus, completed, output_limit_exceeded, time_limit_exceeded, memory_limit_exceeded,
  runtime_error, status_value, ExecutionRequest, ExecutionResult, StreamEventType, stdout, stderr,
  status, error, complete, StreamChunk,
}
use secure_remote_code_execu.Sandbox.StreamConsumer.{
  StreamConsumer, new_consumer, consume_stdout, consume_stderr, get_full_stdout, get_full_stderr,
}
use secure_remote_code_execu.Sandbox.Process.Stream.{Report, chunk_of, cons_some}
use secure_remote_code_execu.Sandbox.Docker.Container.{
  ContainerConfig, Polls, Session, State, EngineError, docker_exception, other_exception, Engine,
  security_options, container_config, or_again, start_from, last_is_newline, stdin_payload, is_137,
  status_of, docker_report, overtime, poll,
}

module _ (now : Text) where
  -- The queue, up to the end mark or until the limit is exceeded.
  unfoldable pub drain : List (Option (List ℕ)) → StreamConsumer → List StreamChunk × StreamConsumer
  drain [] c = ([], c)
  drain (none ∷ items) c = ([], c)
  drain (some b ∷ items) c =
      let (chunk, c') = consume_stdout now (decode_replace b) c in
      let (chunks, last) = drain items c' in
      if c'.limit_exceeded then (cons_some chunk [], c') else (cons_some chunk chunks, last)

  -- `while True:`, with whether the deadline was what ended it.
  unfoldable pub watch : Polls → StreamConsumer → List StreamChunk × StreamConsumer × Bool
  watch overtime c = ([], c, true)
  watch (poll items exited rest) c =
      let (chunks, c') = drain items c in
      let (more, last, late) = watch rest c' in
      if c'.limit_exceeded || exited then (chunks, c', false) else (chunks ++ more, last, late)

  -- What is left in the queue after the loop.
  unfoldable pub drain_rest :
      List (Option (List ℕ)) → StreamConsumer → List StreamChunk × StreamConsumer
  drain_rest [] c = ([], c)
  drain_rest (none ∷ items) c = drain_rest items c
  drain_rest (some b ∷ items) c =
      let (chunk, c') = consume_stdout now (decode_replace b) c in
      let (chunks, last) = drain_rest items c' in (cons_some chunk chunks, last)

-- The chunks that a generator yields, and the exception that it then raises, if any.
abbrev pub Yielded : Type 0
Yielded = List StreamChunk × Option Text

abbrev pub yield_first : List StreamChunk → Yielded → Yielded
yield_first chunks (later, raised) = (chunks ++ later, raised)

module _ (now : Text) (dumps : Report → Text) where
  abbrev pub daemon_failure : Text → StreamChunk
  daemon_failure dex =
      chunk_of now error (codes "[SYSTEM ERROR: Docker daemon failure: " ++ (dex ++ codes "]"))

  abbrev pub timeout_notice : Engine → ExecutionRequest → Bool → List StreamChunk
  timeout_notice e r false = []
  timeout_notice e r true =
      chunk_of now error (
        10
        ∷ (codes "[SYSTEM: Execution exceeded wall-clock timeout of "
            ++ (e.show_seconds r.timeout_ms ++ codes "s.]")))
      ∷ []

  -- `except DockerException as dex`; any other exception leaves the generator.
  abbrev pub caught : EngineError → Yielded
  caught (docker_exception dex) = (daemon_failure dex ∷ [], none)
  caught (other_exception exc) = ([], some exc)

  -- The final report, or the exception of inspecting the container.
  abbrev pub conclude : Engine → Bool → Bool → Result EngineError State → Yielded
  conclude e timed_out limit_exceeded (err exc) = caught exc
  conclude e timed_out limit_exceeded (ok s) = (
    chunk_of now complete
          (dumps (docker_report (status_of timed_out limit_exceeded s) s e.elapsed_ms))
        ∷ [],
    none,
  )

  -- From the start of the container on.
  unfoldable pub container_chunks : Engine → ExecutionRequest → Yielded
  container_chunks e r =
      let s = e.session (stdin_payload r.stdin_data) in
      let (chunks, c, timed_out) = watch now s.polls (new_consumer r.max_output_bytes) in
      let (rest, last) = drain_rest now s.remaining c in
      yield_first chunks (
        yield_first rest (
          yield_first (timeout_notice e r timed_out)
            (conclude e timed_out last.limit_exceeded e.inspect)))

  -- The first call that raises, if any.
  abbrev pub unless_raised : Option EngineError → Yielded → Yielded
  unless_raised (some exc) later = caught exc
  unless_raised none later = later

  unfoldable pub isolated_chunks : Engine → Option Text → ExecutionRequest → Yielded
  isolated_chunks e profile r =
      yield_first (chunk_of now status (codes "Initializing isolated sandbox container...") ∷ []) (
        unless_raised (e.create (container_config profile r))
          (unless_raised e.attach_socket (unless_raised (start_from e 0 3) (container_chunks e r))))

  -- `stream_execute`; `fallback` is what the process sandbox yields.
  unfoldable pub docker_stream_execute : Engine → Option Text → Yielded → ExecutionRequest → Yielded
  docker_stream_execute e profile fallback r =
      if not (e.lower r.language == codes "python") then fallback else isolated_chunks e profile r

-- `async for chunk in self.stream_execute(request)`
abbrev pub absorb_event : Text → StreamEventType → Text → StreamConsumer → StreamConsumer
absorb_event now stdout t c = (consume_stdout now t c).1
absorb_event now stderr t c = (consume_stderr now t c).1
absorb_event now status t c = c
absorb_event now error t c = c
absorb_event now complete t c = c

abbrev pub absorb : Text → List StreamChunk → StreamConsumer → StreamConsumer
absorb now [] c = c
absorb now (chunk ∷ chunks) c = absorb now chunks (absorb_event now chunk.event chunk.payload c)

-- `final_result` is never set, so this is the result.
abbrev pub accumulated : StreamConsumer → ExecutionResult
accumulated c = record {
  status = if not c.limit_exceeded then completed else output_limit_exceeded;
  exit_code = none;
  stdout = get_full_stdout c;
  stderr = get_full_stderr c;
  execution_time_ms = 0;
  peak_memory_bytes = none;
  error_message = none;
  compile_output = [];
}

abbrev pub accumulated_of : Text → ExecutionRequest → Yielded → Result Text ExecutionResult
accumulated_of now r (chunks, some exc) = err exc
accumulated_of now r (chunks, none) =
    ok (accumulated (absorb now chunks (new_consumer r.max_output_bytes)))

-- `execute`, with what the process sandbox gives for the two calls.
unfoldable pub docker_execute :
    Text
    → (Report → Text)
    → Engine
    → Option Text
    → Result Text ExecutionResult
    → Yielded
    → ExecutionRequest
    → Result Text ExecutionResult
docker_execute now dumps e profile process fallback r =
    if not (e.lower r.language == codes "python")
    then process
    else accumulated_of now r (docker_stream_execute now dumps e profile fallback r)
