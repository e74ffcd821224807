-- ===== src/Sandbox/Models.antt =====
-- worker/sandbox/models.py: what a sandbox is asked to run, and what it reports.
use secure_remote_code_execu.Prelude.{
  ℕ, Bool, true, false, Option, none, some, ◌&&◌, leb, if◌then◌else◌, length,
}
use secure_remote_code_execu.Prelude.Texts.{Text, codes}
use secure_remote_code_execu.Prelude.Int.{ℤ}

pub data ExecutionStatus : Type 0 where
  completed compile_error time_limit_exceeded memory_limit_exceeded : ExecutionStatus
  output_limit_exceeded runtime_error resource_limit_exceeded security_violation : ExecutionStatus
  system_error : ExecutionStatus

-- `status.value`
abbrev pub status_value : ExecutionStatus → Text
status_value completed = codes "COMPLETED"
status_value compile_error = codes "COMPILE_ERROR"
status_value time_limit_exceeded = codes "TIME_LIMIT_EXCEEDED"
status_value memory_limit_exceeded = codes "MEMORY_LIMIT_EXCEEDED"
status_value output_limit_exceeded = codes "OUTPUT_LIMIT_EXCEEDED"
status_value runtime_error = codes "RUNTIME_ERROR"
status_value resource_limit_exceeded = codes "RESOURCE_LIMIT_EXCEEDED"
status_value security_violation = codes "SECURITY_VIOLATION"
status_value system_error = codes "SYSTEM_ERROR"

pub data StreamEventType : Type 0 where
  stdout stderr status error complete : StreamEventType

-- `event.value`
abbrev pub event_value : StreamEventType → Text
event_value stdout = codes "stdout"
event_value stderr = codes "stderr"
event_value status = codes "status"
event_value error = codes "error"
event_value complete = codes "complete"

pub record StreamChunk : Type 0 where
  pub event : StreamEventType
  pub payload : Text
  pub timestamp : Text

-- `timeout_ms` is `timeout_seconds` in milliseconds.
pub record ExecutionRequest : Type 0 where
  pub source_code : Text
  pub language : Text
  pub stdin_data : Option Text
  pub timeout_ms : ℕ
  pub memory_limit : Text
  pub cpu_quota : ℕ
  pub max_pids : ℕ
  pub max_output_bytes : ℕ

-- The checks of the constructor: `max_length=65536`, `ge=0.5` and `le=120.0`. `none` is the
-- `ValidationError` that it raises.
unfoldable pub validate_request : ExecutionRequest → Option ExecutionRequest
validate_request r =
    if leb (length r.source_code) 65536 && leb 500 r.timeout_ms && leb r.timeout_ms 120000
    then some r
    else none

pub record ExecutionResult : Type 0 where
  pub status : ExecutionStatus
  pub exit_code : Option ℤ
  pub stdout : Text
  pub stderr : Text
  pub execution_time_ms : ℕ
  pub peak_memory_bytes : Option ℕ
  pub error_message : Option Text
  pub compile_output : Text

-- `status == ExecutionStatus.X`, for the members that the program compares with.
abbrev pub is_compile_error : ExecutionStatus → Bool
is_compile_error compile_error = true
is_compile_error _ = false

abbrev pub is_time_limit_exceeded : ExecutionStatus → Bool
is_time_limit_exceeded time_limit_exceeded = true
is_time_limit_exceeded _ = false

abbrev pub is_memory_limit_exceeded : ExecutionStatus → Bool
is_memory_limit_exceeded memory_limit_exceeded = true
is_memory_limit_exceeded _ = false

abbrev pub is_runtime_error : ExecutionStatus → Bool
is_runtime_error runtime_error = true
is_runtime_error _ = false
