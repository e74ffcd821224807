-- ===== src/Sandbox/Process/Tests.antt =====
-- A run of a Python program on a small machine, and the theorems of the process sandbox at it.
use secure_remote_code_execu.Prelude.{
  ◌≡◌, refl, inl, ◌⊎◌, true, false, none, some, List, [], ◌∷◌, map, Result, ok, arith,
}
use secure_remote_code_execu.Prelude.Texts.{Text, codes}
use secure_remote_code_execu.Prelude.Int.{pos}
use secure_remote_code_execu.Utf8.{encode, encode_char, decode_replace}
use secure_remote_code_execu.Sandbox.Models.{completed, ExecutionResult, StreamChunk}
use secure_remote_code_execu.Sandbox.Polyglot.Strategies.{python_strategy}
use secure_remote_code_execu.Sandbox.StreamConsumer.{
  new_consumer, consume_stdout, get_full_stdout, get_full_stderr,
}
use secure_remote_code_execu.Sandbox.Process.Command.{Platform}
use secure_remote_code_execu.Sandbox.Process.{
  classify, consume_output, report, after_run, run_phase, execute_phases, execute_with, execute,
}
use secure_remote_code_execu.Sandbox.Process.Outcome.{RanWell, run_of, execute_completed}
use secure_remote_code_execu.Sandbox.Process.Stream.{
  closed, stream_execute, final_status, out_bytes, decode_read,
}
use secure_remote_code_execu.Sandbox.Process.Stream.Reports.{
  EndsWithReport, stream_execute-EndsWithReport,
}
use secure_remote_code_execu.Sandbox.Process.Stream.Status.{
  encode_read, stdout_bytes, stderr_bytes, final_status-consume_output,
}
use secure_remote_code_execu.Sandbox.StreamConsumer.Holds.{out}
use secure_remote_code_execu.Sandbox.Process.Samples.{host, stream_host, request, reads}

abbrev result : ExecutionResult
result = record {
  status = completed;
  exit_code = some (pos 0);
  stdout = codes "4";
  stderr = [];
  execution_time_ms = 20;
  peak_memory_bytes = none;
  error_message = none;
  compile_output = [];
}

execute-python : execute [] host request (ok (python_strategy (codes "python3"))) ≡ ok result
unfolding execute execute_with execute_phases run_phase after_run report classify consume_output
    consume_stdout encode encode_char get_full_stdout get_full_stderr
execute-python = refl

execute_completed_example : RanWell (run_of host request (python_strategy (codes "python3"))) result
execute_completed_example =
    execute_completed [] host request (python_strategy (codes "python3")) result
      ((inl (omega arith), tt), tt) execute-python refl

stream_execute-EndsWithReport_example :
    ((exc : Text) × (stream_host.directory ≡ some exc)
      × (stream_execute []
            (λ r. r.outcome)
            stream_host
            request
            (ok (python_strategy (codes "python3")))
          ≡ Result.err exc))
    ⊎ ((chunks : List StreamChunk) × (stream_host.directory ≡ none)
        × (stream_execute []
              (λ r. r.outcome)
              stream_host
              request
              (ok (python_strategy (codes "python3")))
            ≡ ok chunks)
        × EndsWithReport [] (λ r. r.outcome) chunks)
stream_execute-EndsWithReport_example =
    stream_execute-EndsWithReport [] (λ r. r.outcome) stream_host request
      (python_strategy (codes "python3"))

final_status-consume_output_example :
    final_status [] request (map encode_read reads) (closed (some (pos 0)))
    ≡ classify false
        (consume_output []
          (decode_replace (stdout_bytes (map encode_read reads)))
          (decode_replace (stderr_bytes (map encode_read reads)))
          (new_consumer 8)).limit_exceeded
        (some (pos 0))
final_status-consume_output_example =
    final_status-consume_output [] request reads (closed (some (pos 0)))
      ((inl (omega arith), tt), ((inl (omega arith), tt), tt))

-- The two halves of a character that two reads share are replaced one by one.
decode_read-cut :
    map decode_read (out_bytes (195 ∷ []) ∷ out_bytes (169 ∷ []) ∷ [])
    ≡ out (65533 ∷ []) ∷ out (65533 ∷ []) ∷ []
unfolding decode_replace
decode_read-cut = refl

abbrev windows : Platform
windows = record { is_windows = true; cargo_rustc = none; go_candidate = none }
