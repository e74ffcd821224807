-- ===== src/Sandbox/Process.antt =====
-- worker/sandbox/process_sandbox.py: `ProcessSandbox`, which runs a submission as a subprocess. The
-- operating system is an argument: what came of compiling and of running. Output is decoded text.
pub mod Samples
pub mod Command
pub mod AtOnce
pub mod Outcome
pub mod Stream
pub mod Live
mod Tests
use secure_remote_code_execu.Prelude.{
  ℕ, Bool, true, false, Option, none, some, List, [], ◌∷◌, ◌++◌, Result, ok, err, if◌then◌else◌,
}
use secure_remote_code_execu.Prelude.Texts.{Text, codes, is_truthy, text_or, show_nat}
use secure_remote_code_execu.Prelude.Int.{ℤ, pos, negsuc, is_zero, show_int}
use secure_remote_code_execu.Sandbox.Models.{
  ExecutionStatus, completed, compile_error, time_limit_exceeded, output_limit_exceeded,
  runtime_error, system_error, ExecutionRequest, ExecutionResult,
}
use secure_remote_code_execu.Sandbox.Polyglot.Strategy.{Strategy}
use secure_remote_code_execu.Sandbox.StreamConsumer.{
  StreamConsumer, new_consumer, consume_stdout, consume_stderr, get_full_stdout, get_full_stderr,
}
use secure_remote_code_execu.Sandbox.Process.Command.{
  Platform, adapt_compile_command_for_platform, binary_name,
}

-- What came of the compiler: its return code and what it wrote, a `FileNotFoundError`, a
-- `TimeoutError`, or another exception.
pub data Compilation : Type 0 where
  exited : ℤ → Text → Text → Compilation
  not_found : Text → Compilation
  overtime : Compilation
  failed : Text → Compilation

-- What came of the program: its return code and what it wrote, a `TimeoutError`, or another
-- exception.
pub data Run : Type 0 where
  finished : ℤ → Text → Text → Run
  overran : Run
  broken : Text → Run

-- The machine of one call, where the temporary directory can be made. `prepare` is the exception of
-- writing the source file, if there is one.
pub record Host : Type 0 where
  pub platform : Platform
  pub prepare : Option Text
  pub in_directory : Text → Text
  pub compile : List Text → Compilation
  pub run : List Text → Option Text → ℕ → Run
  pub elapsed_ms : ℕ
  pub show_seconds : ℕ → Text

abbrev pub first_word : List Text → Text
first_word [] = []
first_word (w ∷ ws) = w

abbrev pub compile_failure : ℤ → Text → Text → ℕ → Text → ExecutionResult
compile_failure code stderr_text output ms message = record {
  status = compile_error;
  exit_code = some code;
  stdout = [];
  stderr = stderr_text;
  execution_time_ms = ms;
  peak_memory_bytes = none;
  error_message = some message;
  compile_output = output;
}

abbrev pub system_failure : Text → ExecutionResult
system_failure exc = record {
  status = system_error;
  exit_code = none;
  stdout = [];
  stderr = exc;
  execution_time_ms = 0;
  peak_memory_bytes = none;
  error_message = some (codes "Process execution failed: " ++ exc);
  compile_output = [];
}

-- The outcome of a run: whether it timed out, whether it wrote too much, and its exit code.
unfoldable pub classify : Bool → Bool → Option ℤ → ExecutionStatus
classify true limit_exceeded exit_code = time_limit_exceeded
classify false true exit_code = output_limit_exceeded
classify false false none = runtime_error
classify false false (some code) = if is_zero code then completed else runtime_error

abbrev pub error_message_of : Host → ExecutionRequest → ℤ → ExecutionStatus → Option Text
error_message_of host r code time_limit_exceeded = some (
    codes "Execution exceeded wall-clock timeout of "
    ++ (host.show_seconds r.timeout_ms ++ codes "s."))
error_message_of host r code output_limit_exceeded = some (
    codes "Output exceeded maximum byte limit of "
    ++ (show_nat r.max_output_bytes ++ codes " bytes."))
error_message_of host r code completed = none
error_message_of host r code _ =
    some (codes "Process terminated with non-zero exit code " ++ (show_int code ++ codes "."))

-- `None` for an input that is missing or empty.
abbrev pub input_of : Option Text → Option Text
input_of none = none
input_of (some []) = none
input_of (some (c ∷ s)) = some (c ∷ s)

-- `if stdout_data: consumer.consume_stdout(...)`, then the same with standard error.
unfoldable pub consume_output : Text → Text → Text → StreamConsumer → StreamConsumer
consume_output now stdout_text stderr_text c =
    let c' = if is_truthy stdout_text then (consume_stdout now stdout_text c).1 else c in
    if is_truthy stderr_text then (consume_stderr now stderr_text c').1 else c'

unfoldable pub report : Host → ExecutionRequest → Bool → ℤ → StreamConsumer → ExecutionResult
report host r timed_out code c = record {
  status = classify timed_out c.limit_exceeded (some code);
  exit_code = some code;
  stdout = get_full_stdout c;
  stderr = get_full_stderr c;
  execution_time_ms = host.elapsed_ms;
  peak_memory_bytes = none;
  error_message = error_message_of host r code (classify timed_out c.limit_exceeded (some code));
  compile_output = [];
}

unfoldable pub after_run : Text → Host → ExecutionRequest → Run → ExecutionResult
after_run now host r (finished code out_text err_text) =
    report host r false code
      (consume_output now out_text err_text (new_consumer r.max_output_bytes))
after_run now host r overran = report host r true (negsuc 8) (new_consumer r.max_output_bytes)
after_run now host r (broken exc) = system_failure exc

-- The execution phase.
unfoldable pub run_phase : Text → Host → ExecutionRequest → Strategy → Text → ExecutionResult
run_phase now host r strategy target_exec =
    after_run now host r
      (host.run (strategy.get_execution_command target_exec) (input_of r.stdin_data) r.timeout_ms)

-- The compilation phase: the failure that it returns, if it does not go on.
unfoldable pub compile_phase : Host → List Text → Compilation → Option ExecutionResult
compile_phase host command (exited code err_text out_text) =
    if is_zero code
    then none
    else some (
        compile_failure code (text_or err_text out_text) (text_or err_text out_text) host.elapsed_ms
          (codes "Compilation failed. See stderr for compiler diagnostics."))
compile_phase host command (not_found fnf) = some (
    compile_failure (pos 127)
      (codes "Compiler '" ++ (first_word command ++ (codes "' not installed on host: " ++ fnf)))
      (codes "Compiler '" ++ (first_word command ++ codes "' not found.")) 0
      (codes "Compiler '" ++ (first_word command ++ codes "' is not available.")))
compile_phase host command overtime = some (
    compile_failure (negsuc 8)
      (codes "Compilation exceeded 10.0s time limit (possible macro/template recursion bomb).")
      (codes "Compilation timed out.") 10000 (codes "Compilation time limit exceeded."))
compile_phase host command (failed exc) = some (system_failure exc)

abbrev pub or_else : Option ExecutionResult → ExecutionResult → ExecutionResult
or_else (some failure) later = failure
or_else none later = later

abbrev pub source_name : Strategy → Text
source_name strategy = codes "solution" ++ strategy.file_extension

abbrev pub compile_command : Host → Strategy → List Text
compile_command host strategy = adapt_compile_command_for_platform host.platform (
    strategy.get_compile_command (host.in_directory (source_name strategy))
      (host.in_directory (binary_name host.platform)))

unfoldable pub execute_phases : Text → Host → ExecutionRequest → Strategy → ExecutionResult
execute_phases now host r strategy =
    if strategy.is_compiled
    then or_else
        (compile_phase host (compile_command host strategy)
          (host.compile (compile_command host strategy)))
        (run_phase now host r strategy (host.in_directory (binary_name host.platform)))
    else run_phase now host r strategy (host.in_directory (source_name strategy))

unfoldable pub execute_with :
    Text → Host → ExecutionRequest → Strategy → Option Text → ExecutionResult
execute_with now host r strategy (some exc) = system_failure exc
execute_with now host r strategy none = execute_phases now host r strategy

-- `execute`; the `ValueError` of a language that is not supported is raised.
unfoldable pub execute :
    Text → Host → ExecutionRequest → Result Text Strategy → Result Text ExecutionResult
execute now host r (err e) = err e
execute now host r (ok strategy) = ok (execute_with now host r strategy host.prepare)
