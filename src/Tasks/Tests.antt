-- ===== src/Tasks/Tests.antt =====
-- A task and a daemon on small machines, and the theorems of the worker at them.
use secure_remote_code_execu.Prelude.{
  ℕ, ◌≡◌, ◌≤◌, refl, inl, Bool, true, false, Option, none, some, ◌+◌, ◌==◌, list_eq, nat_eq,
  if◌then◌else◌, List, [], ◌∷◌, ◌++◌, drop, All, map, ok, arith,
}
use secure_remote_code_execu.Prelude.Texts.{Text, codes}
use secure_remote_code_execu.Prelude.Int.{pos}
use secure_remote_code_execu.Sandbox.Models.{ExecutionRequest, ExecutionResult, status_value}
use secure_remote_code_execu.Sandbox.Factory.{Machine}
use secure_remote_code_execu.Sandbox.StreamConsumer.Holds.{IsText, written_out, written_err}
use secure_remote_code_execu.Utf8.{encode, encode_char, decode_replace}
use secure_remote_code_execu.Sandbox.Process.Stream.Status.{encode_read, stdout_bytes}
use secure_remote_code_execu.Sandbox.StreamConsumer.Cap.{written}
use secure_remote_code_execu.Sandbox.Polyglot.Strategies.{python_strategy}
use secure_remote_code_execu.Sandbox.Process.{Host, finished, execute}
use secure_remote_code_execu.Sandbox.Process.Samples.{host, stream_host, request, reads}
use secure_remote_code_execu.Sandbox.Process.Stream.{stream_execute}
use secure_remote_code_execu.Streaming.Samples.{server, server-RedisLaws, lengths, empty}
use secure_remote_code_execu.Streaming.Buffer.{get_buffered}
use secure_remote_code_execu.Streaming.Multiplexer.Gapless.{number}
use secure_remote_code_execu.Database.{Submission}
use secure_remote_code_execu.Grading.Models.{TestCaseData}
use secure_remote_code_execu.Grading.Samples.{digits, listing, result, cases}
use secure_remote_code_execu.Tasks.Execution.{Streamed, TaskResult, stream_and_collect}
use secure_remote_code_execu.Tasks.Execution.Agrees.{
  streamed_of, all_chunks, task_run, SameRun, stream_and_collect-get_buffered,
  stream_and_collect-execute, stream_and_collect-written,
}
use secure_remote_code_execu.Tasks.Daemon.{TaskData, Services, Daemon, turn}
use secure_remote_code_execu.Tasks.Daemon.Turns.{oldest_first}
use secure_remote_code_execu.Tasks.Daemon.Runs.{here, push, work, Reach-order}
use secure_remote_code_execu.Tasks.Samples.{reports}

abbrev run : Bool → ExecutionRequest → Streamed
run force r =
    streamed_of
      (stream_execute [] reports.dumps stream_host request (ok (python_strategy (codes "python3"))))

abbrev id : Text
id = codes "s1"

abbrev lower : Text → Text
lower t = t

stream_and_collect-get_buffered_example :
    get_buffered server lengths id 1
      (stream_and_collect server lengths reports.loads [] lower run id request true empty).1
    ≡ some (number id 1 (drop 1 (all_chunks [] (task_run lower run request true))))
stream_and_collect-get_buffered_example =
    stream_and_collect-get_buffered server lengths server-RedisLaws reports.loads [] lower run id
      request true 1 empty refl

abbrev same_host : Host
same_host = record host {
  run = λ command input ms.
      finished (pos 0) (decode_replace (stdout_bytes (map encode_read reads))) (decode_replace []);
}

same :
    SameRun stream_host same_host request
      (python_strategy (codes "python3"))
      (map encode_read reads)
      (pos 0)
same = record {
  stream_directory = refl;
  interpreted = refl;
  stream_prepared = refl;
  prepared = refl;
  session_is = refl;
  run_is = refl;
}

texts : All IsText reads
texts = ((inl (omega arith), tt), ((inl (omega arith), tt), tt))

abbrev returned : TaskResult
returned = (stream_and_collect server lengths reports.loads [] lower run id request true empty).0

stream_and_collect-execute_example :
    (x : ExecutionResult) × (execute [] same_host request (ok (python_strategy (codes "python3")))
      ≡ ok x)
    × (returned.outcome ≡ status_value x.status)
    × (returned.exit_code ≡ x.exit_code)
stream_and_collect-execute_example =
    stream_and_collect-execute server lengths reports [] lower run id stream_host same_host request
      (python_strategy (codes "python3")) reads (pos 0) true empty refl same texts

fits : written reads ≤ request.max_output_bytes
unfolding encode encode_char
fits = omega arith

stream_and_collect-written_example :
    (returned.stdout_text ≡ written_out reads) × (returned.stderr_text ≡ written_err reads)
stream_and_collect-written_example =
    stream_and_collect-written server lengths reports [] lower run id stream_host same_host request
      (python_strategy (codes "python3")) reads (pos 0) true empty refl same texts fits

abbrev machine : Machine
machine = record { kvm_available = false; docker_answers = true; path_exists = λ p. true }

-- A payload is its submission's id; those that begin with `g` are graded.
abbrev task_data : Option (List TestCaseData) → Text → TaskData
task_data given raw = record {
  submission_id = raw;
  action = [];
  test_cases = given;
  mode = codes "NORMALIZED";
  problem_id = codes "p1";
  time_limit_ms = 2000;
  memory_limit_mb = 128;
  request = request;
}

abbrev parse : Text → Option TaskData
parse [] = none
parse (c ∷ raw) = some (task_data (if c == b'g' then some cases else none) (c ∷ raw))

abbrev services : Services
services = record {
  redis = server;
  frames = lengths;
  loads = reports.loads;
  now = [];
  lower = lower;
  floats = digits;
  unified_diff = listing;
  W = ℕ;
  run = λ n. run;
  after_run = λ n. n + 1;
  execute = λ r n. (ok (result r), n + 1);
  parse = parse;
  parse_uuid = λ t. some t;
  dump_summary = λ s. s.submission_id;
}

abbrev row : Submission ℕ
row = record {
  id = codes "s1";
  user_id = codes "u1";
  problem_id = none;
  language = codes "python";
  source_code = codes "print(4)";
  stdin_data = none;
  status = codes "QUEUED";
  score = none;
  max_score = none;
  grading_status = none;
  exit_code = none;
  execution_time_ms = none;
  peak_memory_bytes = none;
  output_summary = none;
  telemetry = none;
}

abbrev idle : Daemon services
idle = record {
  running = true;
  queue = [];
  rows = row ∷ [];
  db = empty;
  grading = [];
  sandbox = 0;
  taken = [];
}

abbrev busy : Daemon services
busy = record idle { queue = codes "s1" ∷ codes "g1" ∷ [] ∷ [] }

abbrev one_pushed : Daemon services
one_pushed = turn services (record idle { queue = codes "s1" ∷ [] })

Reach-order_example : one_pushed.taken ++ oldest_first one_pushed.queue ≡ codes "s1" ∷ []
Reach-order_example = Reach-order refl refl (work refl (push (codes "s1") here))

abbrev sent : List Text
sent = codes "hi" ∷ [] ∷ (0 ∷ codes "4") ∷ (1 ∷ codes "x") ∷ []
