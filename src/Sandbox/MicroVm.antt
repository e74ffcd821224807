-- ===== src/Sandbox/MicroVm.antt =====
-- worker/sandbox/microvm_sandbox.py: `MicroVMCapabilities`, `MicroVMSandbox.stream_execute` and
-- `execute`. What the host and the guest do is an argument. `read_stream`, `monitor_output` and
-- `_consume_to_list` are never called, so the consumer of the stream gets nothing.
pub mod Agrees
pub mod Live
mod Tests
use secure_remote_code_execu.Prelude.{
  ℕ, Bool, true, false, not, ◌&&◌, Option, none, some, List, [], ◌∷◌, ◌++◌, if◌then◌else◌, Result,
  ok, err,
}
use secure_remote_code_execu.Prelude.Texts.{Text, codes, contains, show_nat, text_or}
use secure_remote_code_execu.Prelude.Int.{ℤ, pos, negsuc, is_zero, show_int}
use secure_remote_code_execu.Sandbox.Models.{
  ExecutionStatus, completed, compile_error, output_limit_exceeded, time_limit_exceeded,
  memory_limit_exceeded, runtime_error, status_value, ExecutionRequest, ExecutionResult,
  StreamEventType, stdout, stderr, status, error, complete, StreamChunk,
}
use secure_remote_code_execu.Sandbox.Polyglot.Strategy.{Strategy}
use secure_remote_code_execu.Sandbox.StreamConsumer.{
  StreamConsumer, new_consumer, consume_stdout, consume_stderr, get_full_stdout, get_full_stderr,
}
use secure_remote_code_execu.Sandbox.Process.{input_of}
use secure_remote_code_execu.Sandbox.Process.Stream.{chunk_of}

-- What is asked of the platform.
pub record Probes : Type 0 where
  pub is_linux : Bool
  pub kvm_exists : Bool
  pub kvm_accessible : Bool
  pub firecracker_found : Bool

abbrev pub is_kvm_available : Probes → Bool
is_kvm_available p = if not p.is_linux then false else p.kvm_exists && p.kvm_accessible

abbrev pub get_virtualization_backend : Probes → Text
get_virtualization_backend p =
    if is_kvm_available p && p.firecracker_found
    then codes "KVM_FIRECRACKER_HARDWARE"
    else if is_kvm_available p
    then codes "KVM_DIRECT_DEVICE"
    else codes "HARDWARE_EMULATED_SANDBOX"

-- The compiler ended, with its code and its two outputs, or an exception, which a timeout is too.
pub data GuestCompilation : Type 0 where
  compiler_exited : ℤ → Text → Text → GuestCompilation
  compiler_raised : Text → GuestCompilation

-- The program ended, with its code and its two outputs; or the deadline passed; or an exception.
pub data GuestRun : Type 0 where
  guest_exited : ℤ → Text → Text → GuestRun
  guest_overtime : GuestRun
  guest_raised : Text → GuestRun

-- A machine where the temporary directory can be made and the source file written into it.
pub record Guest : Type 0 where
  pub probes : Probes
  pub vcpus : ℕ
  pub mem_size_mib : ℕ
  pub is_windows : Bool
  pub in_directory : Text → Text
  pub compile : List Text → GuestCompilation
  pub run : List Text → Option Text → ℕ → GuestRun
  pub elapsed_ms : ℕ

abbrev pub solution_name : Strategy → Text
solution_name s = codes "solution" ++ s.file_extension

abbrev solution_binary : Bool → Text
solution_binary is_windows = if is_windows then codes "solution.exe" else codes "solution"

-- `{"status": ..., "exit_code": ...` as it is written by hand
abbrev pub outcome_json : ExecutionStatus → ℤ → Text
outcome_json st code =
    codes "{\"status\": \"" ++ (status_value st ++ (codes "\", \"exit_code\": " ++ show_int code))

abbrev pub guest_status : Bool → ℤ → ExecutionStatus
guest_status limit_exceeded code =
    if limit_exceeded
    then output_limit_exceeded
    else if is_zero code
    then completed
    else runtime_error

abbrev pub initial_notice : Guest → Text
initial_notice g =
    codes "[Micro-VM Isolation initialized: backend="
    ++ (get_virtualization_backend g.probes
        ++ (codes ", vCPUs="
            ++ (show_nat g.vcpus ++ (codes ", mem=" ++ (show_nat g.mem_size_mib ++ codes "MB]")))))

-- The variables of the loop of `execute`.
pub record Telemetry : Type 0 where
  pub consumer : StreamConsumer
  pub outcome : ExecutionStatus
  pub error_msg : Option Text
  pub compile_out : Text

module _ (now : Text) where
  abbrev pub unless_empty : StreamEventType → Text → List StreamChunk
  unless_empty event [] = []
  unless_empty event (c ∷ t) = chunk_of now event (c ∷ t) ∷ []

  abbrev pub guest_complete : Guest → ExecutionRequest → ℤ → StreamChunk
  guest_complete g r code = chunk_of now complete (
      outcome_json (guest_status (new_consumer r.max_output_bytes).limit_exceeded code) code
      ++ (codes ", \"duration_ms\": " ++ (show_nat g.elapsed_ms ++ codes "}")))

  abbrev pub guest_chunks : Guest → ExecutionRequest → GuestRun → List StreamChunk
  guest_chunks g r (guest_exited code out_text err_text) =
      unless_empty stdout out_text ++ (unless_empty stderr err_text ++ guest_complete g r code ∷ [])
  guest_chunks g r guest_overtime =
      chunk_of now status (codes "TIME_LIMIT_EXCEEDED: Micro-VM watchdog deadline expired.")
      ∷ chunk_of now complete (outcome_json time_limit_exceeded (negsuc 8) ++ codes "}")
      ∷ []
  guest_chunks g r (guest_raised exc) =
      chunk_of now error (codes "Micro-VM execution error: " ++ exc) ∷ []

  abbrev pub guest_run : Guest → ExecutionRequest → Strategy → Text → List StreamChunk
  guest_run g r strategy target_exec =
      chunk_of now status (initial_notice g)
      ∷ guest_chunks g r
          (g.run (strategy.get_execution_command target_exec) (input_of r.stdin_data) r.timeout_ms)

  -- The compilation phase, and what follows it.
  abbrev pub guest_compiled : GuestCompilation → List StreamChunk → List StreamChunk
  guest_compiled (compiler_exited code err_text out_text) later =
      if is_zero code
      then later
      else chunk_of now status (codes "COMPILE_ERROR: " ++ text_or err_text out_text)
        ∷ chunk_of now complete (outcome_json compile_error code ++ codes "}")
        ∷ []
  guest_compiled (compiler_raised exc) later =
      chunk_of now error (codes "Micro-VM compiler invocation failed: " ++ exc) ∷ []

  abbrev pub guest_phases : Guest → ExecutionRequest → Strategy → List StreamChunk
  guest_phases g r strategy =
      if strategy.is_compiled
      then guest_compiled
          (g.compile (
            strategy.get_compile_command (g.in_directory (solution_name strategy))
              (g.in_directory (solution_binary g.is_windows))))
          (guest_run g r strategy (g.in_directory (solution_binary g.is_windows)))
      else guest_run g r strategy (g.in_directory (solution_name strategy))

  -- `stream_execute`; the `ValueError` of a language that is not supported is raised.
  unfoldable pub microvm_stream_execute :
      Guest → ExecutionRequest → Result Text Strategy → Result Text (List StreamChunk)
  microvm_stream_execute g r (err e) = err e
  microvm_stream_execute g r (ok strategy) = ok (guest_phases g r strategy)

  abbrev pub note_status : Text → Telemetry → Telemetry
  note_status t m =
      if contains (codes "COMPILE_ERROR") t
      then record m { outcome = compile_error; compile_out = t }
      else if contains (codes "TIME_LIMIT_EXCEEDED") t
      then record m { outcome = time_limit_exceeded }
      else if contains (codes "MEMORY_LIMIT_EXCEEDED") t
      then record m { outcome = memory_limit_exceeded }
      else m

  abbrev pub note_chunk : StreamEventType → Text → Telemetry → Telemetry
  note_chunk stdout t m = record m { consumer = (consume_stdout now t m.consumer).1 }
  note_chunk stderr t m = record m { consumer = (consume_stderr now t m.consumer).1 }
  note_chunk error t m = record m { error_msg = some t; outcome = runtime_error }
  note_chunk status t m = note_status t m
  note_chunk complete t m = m

  abbrev pub note_all : List StreamChunk → Telemetry → Telemetry
  note_all [] m = m
  note_all (c ∷ chunks) m = note_all chunks (note_chunk c.event c.payload m)

  abbrev pub telemetry_result : ℕ → Telemetry → ExecutionResult
  telemetry_result ms m = record {
    status = m.outcome;
    exit_code = some (pos 0);
    stdout = get_full_stdout m.consumer;
    stderr = get_full_stderr m.consumer;
    execution_time_ms = ms;
    peak_memory_bytes = none;
    error_message = m.error_msg;
    compile_output = m.compile_out;
  }

  abbrev pub new_telemetry : ExecutionRequest → Telemetry
  new_telemetry r = record {
    consumer = new_consumer r.max_output_bytes;
    outcome = completed;
    error_msg = none;
    compile_out = [];
  }

  abbrev pub telemetry_of :
      Guest → ExecutionRequest → Result Text (List StreamChunk) → Result Text ExecutionResult
  telemetry_of g r (err e) = err e
  telemetry_of g r (ok chunks) =
      ok (telemetry_result g.elapsed_ms (note_all chunks (new_telemetry r)))

  unfoldable pub microvm_execute :
      Guest → ExecutionRequest → Result Text Strategy → Result Text ExecutionResult
  microvm_execute g r strategy = telemetry_of g r (microvm_stream_execute g r strategy)
