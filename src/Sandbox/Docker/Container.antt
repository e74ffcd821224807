-- ===== src/Sandbox/Docker/Container.antt =====
-- worker/sandbox/docker_sandbox.py: the container that is created, what the engine answers, and the
-- status that a container ends with.
use secure_remote_code_execu.Prelude.{
  ℕ, zero, suc, ◌+◌, Bool, true, false, not, ◌&&◌, ◌||◌, Option, none, some, List, [], ◌∷◌, ◌++◌,
  ltb, ◌==◌, list_eq, nat_eq, if◌then◌else◌, Result,
}
use secure_remote_code_execu.Prelude.Texts.{Text, codes, contains}
use secure_remote_code_execu.Prelude.Int.{ℤ, pos, negsuc, is_zero}
use secure_remote_code_execu.Sandbox.Models.{
  ExecutionStatus, completed, output_limit_exceeded, time_limit_exceeded, memory_limit_exceeded,
  runtime_error, status_value, ExecutionRequest,
}
use secure_remote_code_execu.Sandbox.Process.Stream.{Report}

-- The arguments of `containers.create` that the request or the profile decide, and the isolation.
pub record ContainerConfig : Type 0 where
  pub image : Text
  pub command : List Text
  pub network_mode : Text
  pub read_only : Bool
  pub user : Text
  pub cap_drop : List Text
  pub security_opt : List Text
  pub mem_limit : Text
  pub memswap_limit : Text
  pub cpu_quota : ℕ
  pub pids_limit : ℕ

-- The turns of the loop: the deadline has passed, or these byte reads are in the queue (`none` is the
-- end mark) and afterwards the container has exited with an empty queue or not.
pub data Polls : Type 0 where
  overtime : Polls
  poll : List (Option (List ℕ)) → Bool → Polls → Polls

-- `remaining` is in the queue when the reader thread has been joined.
pub record Session : Type 0 where
  pub polls : Polls
  pub remaining : List (Option (List ℕ))

pub record State : Type 0 where
  pub exit_code : ℤ
  pub oom_killed : Bool

-- What a call of the engine raises: a `DockerException`, or an exception of the connection, such as a
-- `ConnectionError` of `requests`, which is not one.
pub data EngineError : Type 0 where
  docker_exception other_exception : Text → EngineError

pub record Engine : Type 0 where
  pub create : ContainerConfig → Option EngineError
  pub attach_socket : Option EngineError
  pub start : ℕ → Option EngineError
  pub session : Option Text → Session
  pub inspect : Result EngineError State
  pub elapsed_ms : ℕ
  pub show_seconds : ℕ → Text
  pub lower : Text → Text

abbrev pub security_options : Option Text → List Text
security_options none = codes "no-new-privileges:true" ∷ []
security_options (some profile) =
    codes "no-new-privileges:true" ∷ (codes "seccomp=" ++ profile) ∷ []

-- `profile` is the JSON of the seccomp profile.
abbrev pub container_config : Option Text → ExecutionRequest → ContainerConfig
container_config profile r = record {
  image = codes "lab-sandbox-" ++ (r.language ++ codes ":3.11");
  command = codes "python3" ∷ codes "-u" ∷ codes "-B" ∷ codes "-c" ∷ r.source_code ∷ [];
  network_mode = codes "none";
  read_only = true;
  user = codes "1001:1001";
  cap_drop = codes "ALL" ∷ [];
  security_opt = security_options profile;
  mem_limit = r.memory_limit;
  memswap_limit = r.memory_limit;
  cpu_quota = r.cpu_quota;
  pids_limit = r.max_pids;
}

-- What comes of an attempt to start: a `DockerException` about `netns` is tried again, but not the third
-- time.
abbrev pub or_again : Engine → ℕ → Option EngineError → Option EngineError → Option EngineError
or_again e attempt none again = none
or_again e attempt (some (other_exception exc)) again = some (other_exception exc)
or_again e attempt (some (docker_exception exc)) again =
    if contains (codes "netns") (e.lower exc) && ltb attempt 2
    then again
    else some (docker_exception exc)

-- `for attempt in range(3)`, from an attempt on; the exception that is raised, if any.
abbrev pub start_from : Engine → ℕ → ℕ → Option EngineError
start_from e attempt zero = none
start_from e attempt (suc n) =
    let again = start_from e (attempt + 1) n in or_again e attempt (e.start attempt) again

abbrev pub last_is_newline : Text → Bool
last_is_newline [] = false
last_is_newline (c ∷ []) = c == 10
last_is_newline (c ∷ (d ∷ t)) = last_is_newline (d ∷ t)

-- What is written to the terminal: the input, a line end if it has none, and Ctrl+D.
abbrev pub stdin_payload : Option Text → Option Text
stdin_payload none = none
stdin_payload (some []) = none
stdin_payload (some (c ∷ t)) =
    some ((if last_is_newline (c ∷ t) then c ∷ t else (c ∷ t) ++ 10 ∷ []) ++ 4 ∷ [])

abbrev pub is_137 : ℤ → Bool
is_137 (pos n) = n == 137
is_137 (negsuc n) = false

-- `# Determine final status`
abbrev pub status_of : Bool → Bool → State → ExecutionStatus
status_of timed_out limit_exceeded s =
    if timed_out
    then time_limit_exceeded
    else if s.oom_killed || (is_137 s.exit_code && not timed_out)
    then memory_limit_exceeded
    else if limit_exceeded
    then output_limit_exceeded
    else if is_zero s.exit_code
    then completed
    else runtime_error

abbrev pub docker_report : ExecutionStatus → State → ℕ → Report
docker_report st s ms = record {
  outcome = status_value st;
  exit_code = some s.exit_code;
  duration_ms = ms;
  oom_killed = s.oom_killed;
  compile_output = none;
}
