-- ===== src/Tasks/Daemon.antt =====
-- worker/daemon.py: `AsyncWorkerDaemon.start` and `_persist_submission_result`. The queue is the list
-- that `LPUSH` adds to at the head and `BRPOP` takes from at the end. A failing database or Redis
-- command is not modelled, nor is cancelling the daemon, which ends the loop (`except
-- asyncio.CancelledError: break`); waiting on an empty queue is a turn that does nothing.
pub mod Turns
pub mod Runs
use secure_remote_code_execu.Prelude.{
  ℕ, ◌≡◌, Bool, true, false, ◌||◌, Option, none, some, List, [], ◌∷◌, ◌++◌, map, ◌==◌, list_eq,
  nat_eq, if◌then◌else◌, Result, ok, err,
}
use secure_remote_code_execu.Prelude.Texts.{Text, codes, is_truthy, text_or}
use secure_remote_code_execu.Prelude.Int.{ℤ}
use secure_remote_code_execu.Redis.{Redis}
use secure_remote_code_execu.Database.{Submission}
use secure_remote_code_execu.Sandbox.Models.{ExecutionRequest, ExecutionResult, validate_request}
use secure_remote_code_execu.Sandbox.Process.Stream.{Report}
use secure_remote_code_execu.Streaming.Json.{FrameCodec}
use secure_remote_code_execu.Grading.Floats.{Floats}
use secure_remote_code_execu.Grading.Models.{
  ComparisonMode, normalized, strict, token, epsilon, TestCaseData, GradingSummary, value,
}
use secure_remote_code_execu.Grading.Harness.{Job, evaluate_submission}
use secure_remote_code_execu.Tasks.Execution.{Streamed, TaskResult, stream_and_collect}

-- A decoded payload, with the defaults of `.get` for what it lacks. `test_cases` is `none` where the
-- payload has no such key.
pub record TaskData : Type 0 where
  pub submission_id : Text
  pub action : Text
  pub test_cases : Option (List TestCaseData)
  pub mode : Text
  pub problem_id : Text
  pub time_limit_ms : ℕ
  pub memory_limit_mb : ℕ
  pub request : ExecutionRequest

-- `ComparisonMode(mode) if mode in ComparisonMode.__members__ else ComparisonMode.NORMALIZED`
unfoldable pub mode_of : Text → ComparisonMode
mode_of s =
    if s == codes "STRICT"
    then strict
    else if s == codes "TOKEN"
    then token
    else if s == codes "EPSILON"
    then epsilon
    else normalized

-- What the program calls. `parse` is `none` where decoding the payload raises, and `parse_uuid` where
-- `uuid.UUID` does. The sandboxes may depend on all that happened before, the state `W`.
pub record Services : Type 1 where
  pub redis : Redis
  pub frames : FrameCodec
  pub loads : Text → Option Report
  pub now : Text
  pub lower : Text → Text
  pub floats : Floats
  pub unified_diff : List Text → List Text → List Text
  pub W : Type 0
  pub run : W → Bool → ExecutionRequest → Streamed
  pub after_run : W → W
  pub execute : ExecutionRequest → W → Result Text ExecutionResult × W
  pub parse : Text → Option TaskData
  pub parse_uuid : Text → Option Text
  pub dump_summary : GradingSummary floats.Float → Text

-- `.values(...)`
pub record Values : Type 0 where
  pub status : Text
  pub exit_code : Option ℤ
  pub duration_ms : Option ℕ
  pub output_summary : Option Text
  pub score : Option ℤ
  pub max_score : Option ℤ
  pub grading_status : Option Text

abbrev pub set_values : {Float : Type 0} → Values → Submission Float → Submission Float
set_values v row = record row {
  status = v.status;
  exit_code = v.exit_code;
  execution_time_ms = v.duration_ms;
  output_summary = v.output_summary;
  score = v.score;
  max_score = v.max_score;
  grading_status = v.grading_status;
}

-- `update(Submission).where(Submission.id == sub_uuid).values(...)`
abbrev pub update_row : {Float : Type 0} → Text → Values → Submission Float → Submission Float
update_row id v row = if row.id == id then set_values v row else row

-- `_persist_submission_result`; the exception of `uuid.UUID` is logged.
abbrev pub persist :
    {Float : Type 0} → Option Text → Values → List (Submission Float) → List (Submission Float)
persist none v rows = rows
persist (some id) v rows = map (update_row id v) rows

abbrev pub snoc_some {ℓ} : {A : Type ℓ} → A → Option (List A × A) → Option (List A × A)
snoc_some x none = some ([], x)
snoc_some x (some (before, y)) = some (x ∷ before, y)

-- The last element, and the list before it.
abbrev pub pop_last {ℓ} : {A : Type ℓ} → List A → Option (List A × A)
pop_last [] = none
pop_last (x ∷ xs) = snoc_some x (pop_last xs)

module _ (S : Services) where
  open S use {redis, floats}

  -- `taken` is the history of what was popped, oldest first; the program does not keep it.
  pub record Daemon : Type 0 where
    pub running : Bool
    pub queue : List Text
    pub rows : List (Submission floats.Float)
    pub db : redis.Db
    pub grading : List (Text × Text)
    pub sandbox : S.W
    pub taken : List Text

  abbrev pub grading_key : Text → Text
  grading_key submission_id = codes "rce:grading:" ++ submission_id

  abbrev pub cases_of : Option (List TestCaseData) → List TestCaseData
  cases_of none = []
  cases_of (some cases) = cases

  abbrev pub job_of : TaskData → Job
  job_of t = record {
    submission_id = t.submission_id;
    problem_id = t.problem_id;
    source_code = t.request.source_code;
    language = t.request.language;
    time_limit_ms = t.time_limit_ms;
    memory_limit_mb = t.memory_limit_mb;
    mode = mode_of t.mode;
  }

  abbrev pub graded_values : GradingSummary floats.Float → Values
  graded_values summary = record {
    status = value summary.overall_status;
    exit_code = none;
    duration_ms = none;
    output_summary = none;
    score = some summary.total_score;
    max_score = some summary.max_score;
    grading_status = some (value summary.overall_status);
  }

  abbrev pub run_values : TaskResult → Values
  run_values result = record {
    status = result.outcome;
    exit_code = result.exit_code;
    duration_ms = some result.duration_ms;
    output_summary = some (text_or result.stdout_text result.stderr_text);
    score = none;
    max_score = none;
    grading_status = none;
  }

  -- What is done with a summary; `none` is a `ValidationError`, which is logged.
  abbrev pub finish_grading :
      TaskData → Option (GradingSummary floats.Float × S.W) → Daemon → Daemon
  finish_grading t none d = d
  finish_grading t (some (summary, w)) d = record d {
    grading = d.grading ++ (grading_key t.submission_id, S.dump_summary summary) ∷ [];
    rows = persist (S.parse_uuid t.submission_id) (graded_values summary) d.rows;
    sandbox = w;
  }

  -- A grading job.
  unfoldable pub grade_job : TaskData → Daemon → Daemon
  unfolding mode_of
  grade_job t d =
      finish_grading t
        (evaluate_submission floats S.unified_diff S.execute (job_of t) (cases_of t.test_cases)
          d.sandbox)
        d

  unfoldable pub finish_run : TaskData → TaskResult × redis.Db → Daemon → Daemon
  finish_run t (result, db) d = record d {
    db = db;
    rows = persist (S.parse_uuid t.submission_id) (run_values result) d.rows;
    sandbox = S.after_run d.sandbox;
  }

  -- `none` is the `ValidationError` of the request, which is logged.
  unfoldable pub run_valid : TaskData → Option ExecutionRequest → Daemon → Daemon
  unfolding finish_run
  run_valid t none d = d
  run_valid t (some request) d =
      finish_run t
        (stream_and_collect redis S.frames S.loads S.now S.lower (S.run d.sandbox) t.submission_id
          request false d.db)
        d

  -- A job without test cases.
  unfoldable pub run_job : TaskData → Daemon → Daemon
  run_job t d = run_valid t (validate_request t.request) d

  abbrev is_given {ℓ} : {A : Type ℓ} → Option A → Bool
  is_given none = false
  is_given (some a) = true

  -- `task_data.get("action") == "grade" or "test_cases" in task_data`
  abbrev pub is_grading : TaskData → Bool
  is_grading t = (t.action == codes "grade") || is_given t.test_cases

  abbrev pub handle_task : TaskData → Daemon → Daemon
  handle_task t d =
      if is_truthy t.submission_id then (if is_grading t then grade_job t d else run_job t d) else d

  abbrev pub handle_parsed : Option TaskData → Daemon → Daemon
  handle_parsed none d = d
  handle_parsed (some t) d = handle_task t d

  -- A payload that was popped.
  unfoldable pub handle_payload : Text → Daemon → Daemon
  handle_payload raw d = handle_parsed (S.parse raw) d

  abbrev pub take_job : Daemon → Option (List Text × Text) → Daemon
  take_job d none = d
  take_job d (some (before, raw)) =
      handle_payload raw (record d { queue = before; taken = d.taken ++ raw ∷ [] })

  -- One turn of the body of `while self.running:`. The test is not in it: whoever takes a turn has it.
  unfoldable pub turn : Daemon → Daemon
  turn d = take_job d (pop_last d.queue)
