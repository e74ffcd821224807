-- ===== src/Tasks/Execution.antt =====
-- worker/tasks/execution.py: `_stream_and_collect` and `execute_code`. A
-- sandbox is the list of the chunks that its `stream_execute` yields and the exception that it may
-- end with; publishing to Redis succeeds. The spans of the tracing library have no effect here.
pub mod Collects
pub mod Agrees
use secure_remote_code_execu.Prelude.{
  ℕ, Bool, true, false, not, ◌||◌, Option, none, some, List, [], ◌∷◌, ◌++◌, ◌==◌, list_eq, nat_eq,
  if◌then◌else◌, Result, ok, err,
}
use secure_remote_code_execu.Prelude.Texts.{Text, codes, join}
use secure_remote_code_execu.Prelude.Int.{ℤ}
use secure_remote_code_execu.Redis.{Redis}
use secure_remote_code_execu.Sandbox.Models.{
  ExecutionRequest, StreamEventType, stdout, stderr, status, error, complete, StreamChunk,
  system_error, status_value, validate_request,
}
use secure_remote_code_execu.Sandbox.Process.Stream.{Report}
use secure_remote_code_execu.Streaming.Json.{FrameCodec}
use secure_remote_code_execu.Streaming.Multiplexer.{
  StreamMultiplexer, new_multiplexer, publish_chunk,
}

-- What `async for chunk in sandbox.stream_execute(request)` goes through.
pub record Streamed : Type 0 where
  pub chunks : List StreamChunk
  pub raised : Option Text

-- `stdout_parts`, `stderr_parts` and `final_payload`
pub record Collected : Type 0 where
  pub stdout_parts : List Text
  pub stderr_parts : List Text
  pub final_payload : Report

abbrev pub initial_payload : Report
initial_payload = record {
  outcome = status_value system_error;
  exit_code = none;
  duration_ms = 0;
  oom_killed = false;
  compile_output = none;
}

abbrev pub nothing_collected : Collected
nothing_collected = record { stdout_parts = []; stderr_parts = []; final_payload = initial_payload }

-- `with contextlib.suppress(Exception): final_payload = json.loads(chunk.data)`
abbrev pub or_keep : Report → Option Report → Report
or_keep payload none = payload
or_keep payload (some r) = r

-- What the loop does with a chunk after it has been published.
unfoldable pub accumulate : (Text → Option Report) → StreamEventType → Text → Collected → Collected
accumulate loads stdout text c = record c { stdout_parts = c.stdout_parts ++ text ∷ [] }
accumulate loads stderr text c = record c { stderr_parts = c.stderr_parts ++ text ∷ [] }
accumulate loads complete text c = record c { final_payload = or_keep c.final_payload (loads text) }
accumulate loads status text c = c
accumulate loads error text c = c

-- The dictionary that the task returns.
pub record TaskResult : Type 0 where
  pub submission_id : Text
  pub outcome : Text
  pub exit_code : Option ℤ
  pub duration_ms : ℕ
  pub oom_killed : Bool
  pub stdout_text : Text
  pub stderr_text : Text

abbrev pub task_result : Text → Collected → TaskResult
task_result submission_id c = record {
  submission_id = submission_id;
  outcome = c.final_payload.outcome;
  exit_code = c.final_payload.exit_code;
  duration_ms = c.final_payload.duration_ms;
  oom_killed = c.final_payload.oom_killed;
  stdout_text = join [] c.stdout_parts;
  stderr_text = join [] c.stderr_parts;
}

abbrev pub with_system_error : Collected → Collected
with_system_error c = record c {
  final_payload = record (c.final_payload) { outcome = status_value system_error };
}

abbrev pub error_chunk : Text → Text → StreamChunk
error_chunk now exc = record {
  event = error;
  payload = codes "[SYSTEM ERROR: " ++ (exc ++ codes "]");
  timestamp = now;
}

module _ (redis : Redis) (codec : FrameCodec) (loads : Text → Option Report) where
  -- The loop over the chunks.
  unfoldable pub stream_loop :
      List StreamChunk
      → (StreamMultiplexer × redis.Db) × Collected
      → (StreamMultiplexer × redis.Db) × Collected
  stream_loop [] s = s
  stream_loop (chunk ∷ chunks) (m, c) =
      stream_loop chunks
        ((publish_chunk redis codec chunk m).1, accumulate loads chunk.event chunk.payload c)

module _ (redis : Redis) (codec : FrameCodec) (loads : Text → Option Report) (now : Text) where
  -- `except Exception as exc:`
  unfoldable pub handle :
      Option Text
      → (StreamMultiplexer × redis.Db) × Collected
      → (StreamMultiplexer × redis.Db) × Collected
  handle none s = s
  handle (some exc) (m, c) =
      ((publish_chunk redis codec (error_chunk now exc) m).1, with_system_error c)

  -- `run` is the sandbox for a request, forced to be a process sandbox or not.
  unfoldable pub stream_and_collect :
      (Text → Text)
      → (Bool → ExecutionRequest → Streamed)
      → Text
      → ExecutionRequest
      → Bool
      → redis.Db
      → TaskResult × redis.Db
  stream_and_collect lower run submission_id request force_process db =
      let is_polyglot = not (lower request.language == codes "python") in
      let streamed = run (force_process || is_polyglot) request in
      let (m, c) = handle streamed.raised (
        stream_loop redis codec loads streamed.chunks
          ((new_multiplexer submission_id, db), nothing_collected)) in
      (task_result submission_id c, m.1)

  -- `execute_code`, whose request is checked when it is built; `none` is the `ValidationError`.
  unfoldable pub execute_code :
      (Text → Text)
      → (Bool → ExecutionRequest → Streamed)
      → Text
      → ExecutionRequest
      → Bool
      → redis.Db
      → Option (TaskResult × redis.Db)
  execute_code lower run submission_id request force_process db = elim (validate_request request) [
    | none ↦ none
    | some valid ↦ some (stream_and_collect lower run submission_id valid force_process db)
  ]
