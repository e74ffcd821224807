-- ===== src/Sandbox/Docker/Tests.antt =====
-- A container on a small engine, and the theorems of the Docker sandbox at it.
use secure_remote_code_execu.Prelude.{
  ◌≡◌, ◌⊎◌, refl, true, false, none, some, List, [], ◌∷◌, ◌++◌, Result, ok, err,
}
use secure_remote_code_execu.Prelude.Texts.{Text, codes, show_nat}
use secure_remote_code_execu.Prelude.Int.{pos}
use secure_remote_code_execu.Sandbox.Process.Samples.{request}
use secure_remote_code_execu.Sandbox.Process.Stream.{Report}
use secure_remote_code_execu.Sandbox.Docker.Container.{
  Polls, overtime, poll, State, Engine, stdin_payload,
}
use secure_remote_code_execu.Sandbox.Docker.{
  Yielded, watch, drain, docker_stream_execute, docker_execute,
}
use secure_remote_code_execu.Sandbox.Docker.Overtime.{late_report, docker_execute-overtime}
use secure_remote_code_execu.Sandbox.Models.{
  completed, output_limit_exceeded, ExecutionResult, StreamChunk,
}
use secure_remote_code_execu.Sandbox.StreamConsumer.{new_consumer, consume_stdout}
use secure_remote_code_execu.Utf8.{encode, encode_char, decode_replace}
use secure_remote_code_execu.Sandbox.Docker.Ends.{
  EndsOnce, CallRaised, docker_stream_execute-EndsOnce,
}

abbrev dumps : Report → Text
dumps report = report.outcome

abbrev killed : State
killed = record { exit_code = pos 137; oom_killed = false }

abbrev engine : Polls → Engine
engine polls = record {
  create = λ config. none;
  attach_socket = none;
  start = λ attempt. none;
  session = λ input. record { polls = polls; remaining = [] };
  inspect = ok killed;
  elapsed_ms = 20;
  show_seconds = show_nat;
  lower = λ t. t;
}

abbrev talkative : Polls
talkative = poll (some (codes "4") ∷ []) false (poll (some (codes "2") ∷ none ∷ []) true overtime)

abbrev nobody : Yielded
nobody = ([], some (codes "not asked"))

docker_stream_execute-EndsOnce_example :
    EndsOnce [] dumps
      (CallRaised (engine talkative) none request)
      (docker_stream_execute [] dumps (engine talkative) none nobody request)
docker_stream_execute-EndsOnce_example =
    docker_stream_execute-EndsOnce [] dumps (engine talkative) none request nobody refl

abbrev slow : Polls
slow = poll (some (codes "4") ∷ []) false (poll [] false overtime)

abbrev slow_engine : Engine
slow_engine = engine slow

abbrev not_grading : Result Text ExecutionResult
not_grading = err (codes "not asked")

slow_late :
    (watch []
      (slow_engine.session (stdin_payload request.stdin_data)).polls
      (new_consumer request.max_output_bytes)).2
    ≡ true
unfolding watch drain decode_replace consume_stdout encode encode_char
slow_late = refl

docker_execute-overtime_example :
    (before : List StreamChunk) × (x : ExecutionResult) × (docker_stream_execute [] dumps
        slow_engine none nobody request
      ≡ (before ++ late_report [] dumps slow_engine none request killed ∷ [], none))
    × (docker_execute [] dumps slow_engine none not_grading nobody request ≡ ok x)
    × ((x.status ≡ completed) ⊎ (x.status ≡ output_limit_exceeded))
    × (x.exit_code ≡ none)
    × (x.execution_time_ms ≡ 0)
docker_execute-overtime_example =
    docker_execute-overtime [] dumps slow_engine none request not_grading nobody killed refl refl
      refl refl slow_late refl
