-- ===== src/Grading/Harness.antt =====
-- worker/grading/harness.py: `GradingHarness`. The sandbox is the function `execute`, whose
-- result may depend on all that happened before, the state `W`; an exception is its text. `none`
-- is the `ValidationError` of a request, which ends the whole evaluation.
pub mod Step
pub mod Tally
pub mod Totals
pub mod Marks
pub mod Summary
pub mod Returns
use secure_remote_code_execu.Prelude.{
  ℕ, ◌+◌, ◌*◌, Bool, true, false, not, ◌&&◌, ◌||◌, Option, none, some, Result, ok, err, List, [],
  ◌∷◌, ◌++◌, map, length, all, any, ltb, if◌then◌else◌,
}
use secure_remote_code_execu.Prelude.Texts.{Text, codes, is_truthy, text_or, show_nat}
use secure_remote_code_execu.Prelude.Int.{ℤ, pos, is_zero, show_int, ◌+ℤ◌, ltb_ℤ, sum_ℤ}
use secure_remote_code_execu.PyStr.{is_nil}
use secure_remote_code_execu.Sandbox.Models.{
  ExecutionRequest, ExecutionResult, validate_request, is_compile_error, is_time_limit_exceeded,
  is_memory_limit_exceeded, is_runtime_error,
}
use secure_remote_code_execu.Grading.Floats.{Floats}
use secure_remote_code_execu.Grading.Models.{
  EvaluationVerdict, accepted, partial, wrong_answer, time_limit_exceeded, memory_limit_exceeded,
  runtime_error, compile_error, system_error, value, ComparisonMode, TestCaseData, TestCaseVerdict,
  GradingSummary,
}
use secure_remote_code_execu.Grading.Verifier.{verify}

-- The arguments of `evaluate_submission` other than the test cases.
pub record Job : Type 0 where
  pub submission_id : Text
  pub problem_id : Text
  pub source_code : Text
  pub language : Text
  pub time_limit_ms : ℕ
  pub memory_limit_mb : ℕ
  pub mode : ComparisonMode

-- The variables of the loop.
pub record Progress : Type 0 where
  pub total_score : ℤ
  pub passed_count : ℕ
  pub peak_memory : ℕ
  pub total_exec_time : ℕ
  pub compile_error_output : Option Text
  pub test_case_results : List TestCaseVerdict

abbrev pub begin : Progress
begin = record {
  total_score = pos 0;
  passed_count = 0;
  peak_memory = 0;
  total_exec_time = 0;
  compile_error_output = none;
  test_case_results = [];
}

abbrev pub or_zero : Option ℕ → ℕ
or_zero none = 0
or_zero (some n) = n

-- `timeout_seconds` is `max(0.5, time_limit_ms / 1000.0)`.
unfoldable pub build_request : Job → TestCaseData → ExecutionRequest
build_request job tc = record {
  source_code = job.source_code;
  language = job.language;
  stdin_data = some tc.input_data;
  timeout_ms = if ltb job.time_limit_ms 500 then 500 else job.time_limit_ms;
  memory_limit = show_nat job.memory_limit_mb ++ codes "m";
  cpu_quota = 50000;
  max_pids = 64;
  max_output_bytes = 1048576;
}

-- A verdict that gives no points, with the fields that every verdict copies from its test case.
unfoldable pub failing :
    TestCaseData → EvaluationVerdict → ℕ → ℕ → Option Text → Option Text → TestCaseVerdict
failing tc verdict exec_time mem_bytes actual message = record {
  test_case_id = tc.id;
  order = tc.order;
  status = verdict;
  passed = false;
  duration_ms = exec_time;
  memory_bytes = mem_bytes;
  is_hidden = tc.is_hidden;
  weight = tc.weight;
  earned_points = pos 0;
  input_data = some tc.input_data;
  expected_output = some tc.expected_output;
  actual_output = actual;
  diff = none;
  error_message = message;
}

unfoldable pub append : Progress → TestCaseVerdict → Progress
append p v = record p { test_case_results = p.test_case_results ++ v ∷ [] }

-- The sandbox raised: a system error for this test case.
unfoldable pub sandbox_failed : TestCaseData → Text → Progress → Progress
unfolding failing append
sandbox_failed tc exc p =
    append p (failing tc system_error 0 0 none (some (codes "System error: " ++ exc)))

-- The time and the peak of the memory, for every run that the sandbox reports.
unfoldable pub charge : ExecutionResult → Progress → Progress
charge r p =
    let mem_bytes = or_zero r.peak_memory_bytes in
    record p {
      total_exec_time = p.total_exec_time + r.execution_time_ms;
      peak_memory = if ltb p.peak_memory mem_bytes then mem_bytes else p.peak_memory;
    }

unfoldable pub not_compiled : ℕ → ℕ → TestCaseData → TestCaseVerdict
unfolding failing
not_compiled exec_time mem_bytes tc =
    failing tc compile_error exec_time mem_bytes none (some (codes "Compilation failed"))

-- A compile error: this verdict, and one for each of the remaining test cases.
unfoldable pub compile_failed :
    TestCaseData → List TestCaseData → ExecutionResult → Progress → Progress
unfolding not_compiled
compile_failed tc remaining r p = record p {
  compile_error_output = some (text_or r.compile_output r.stderr);
  test_case_results =
      (p.test_case_results
        ++ not_compiled r.execution_time_ms (or_zero r.peak_memory_bytes) tc ∷ [])
      ++ map (not_compiled 0 0) remaining;
}

unfoldable pub exceeds_time : Job → ExecutionResult → Bool
exceeds_time job r = is_time_limit_exceeded r.status || ltb job.time_limit_ms r.execution_time_ms

-- `mem_bytes > (memory_limit_mb * 1024 * 1024) > 0`
unfoldable pub exceeds_memory : Job → ExecutionResult → Bool
exceeds_memory job r =
    let limit = job.memory_limit_mb * 1024 * 1024 in
    is_memory_limit_exceeded r.status || (ltb limit (or_zero r.peak_memory_bytes) && ltb 0 limit)

abbrev pub failed_exit : Option ℤ → Bool
failed_exit none = false
failed_exit (some code) = not (is_zero code)

abbrev pub show_exit : Option ℤ → Text
show_exit none = codes "None"
show_exit (some code) = show_int code

unfoldable pub exited_badly : ExecutionResult → Bool
exited_badly r = is_runtime_error r.status || failed_exit r.exit_code

-- The verdict on output that matches.
unfoldable pub matched : TestCaseData → ExecutionResult → TestCaseVerdict
unfolding failing
matched tc r =
    record (failing tc accepted r.execution_time_ms (or_zero r.peak_memory_bytes) (some r.stdout)
      none) { passed = true; earned_points = tc.weight }

-- `reason or "Output mismatch"`
abbrev pub reason_or_default : Option Text → Text
reason_or_default none = codes "Output mismatch"
reason_or_default (some t) = text_or t (codes "Output mismatch")

-- The verdict on output that does not.
unfoldable pub mismatched :
    TestCaseData → ExecutionResult → Option Text → Option Text → TestCaseVerdict
unfolding failing
mismatched tc r difference reason =
    record (failing tc wrong_answer r.execution_time_ms (or_zero r.peak_memory_bytes)
      (some r.stdout) none) { diff = difference; error_message = some (reason_or_default reason) }

module _ (F : Floats) (unified_diff : List Text → List Text → List Text) where
  -- A run whose output is compared with the expected one.
  unfoldable pub compare_output : Job → TestCaseData → ExecutionResult → Progress → Progress
  unfolding append matched mismatched
  compare_output job tc r p =
      let (is_match, difference, reason) =
        verify F unified_diff job.mode r.stdout tc.expected_output in
      if is_match
      then append
          (record p { passed_count = p.passed_count + 1; total_score = p.total_score +ℤ tc.weight })
          (matched tc r)
      else append p (mismatched tc r difference reason)

  -- A run that compiled: the checks in their order, from the progress that the run was charged to.
  unfoldable pub grade_run : Job → TestCaseData → ExecutionResult → Progress → Progress
  unfolding failing append exceeds_time exceeds_memory exited_badly compare_output
  grade_run job tc r p =
      let fail = λ (verdict : EvaluationVerdict) (message : Text). append p (
        failing tc verdict r.execution_time_ms (or_zero r.peak_memory_bytes) (some r.stdout)
          (some message)) in
      if exceeds_time job r
      then fail time_limit_exceeded
          (codes "Time limit of " ++ (show_nat job.time_limit_ms ++ codes "ms exceeded"))
      else if exceeds_memory job r
      then fail memory_limit_exceeded
          (codes "Memory limit of " ++ (show_nat job.memory_limit_mb ++ codes "MB exceeded"))
      else if exited_badly r
      then fail runtime_error
          (text_or r.stderr (codes "Process exited with non-zero code " ++ show_exit r.exit_code))
      else compare_output job tc r p

  module _ {W : Type 0} (execute : ExecutionRequest → W → Result Text ExecutionResult × W) where
    -- The loop over the test cases.
    unfoldable pub evaluate_cases : Job → List TestCaseData → Progress → W → Option (Progress × W)
    evaluate_cases job [] p w = some (p, w)
    evaluate_cases job (tc ∷ rest) p w = elim (validate_request (build_request job tc)) [
      | none ↦ none
      | some request ↦
          let (outcome, w') = execute request w in
          elim outcome [
            | err exc ↦ evaluate_cases job rest (sandbox_failed tc exc p) w'
            | ok r ↦ elim (is_compile_error r.status) [
              | true ↦ some (compile_failed tc rest r (charge r p), w')
              | false ↦ evaluate_cases job rest (grade_run job tc r (charge r p)) w'
            ]
          ]
    ]

abbrev pub weight_of : TestCaseData → ℤ
weight_of tc = tc.weight

-- The verdict of the first failure, if there is one.
abbrev pub first_failure : List TestCaseVerdict → EvaluationVerdict
first_failure [] = wrong_answer
first_failure (r ∷ rs) = if r.passed then first_failure rs else r.status

abbrev pub is_passed : TestCaseVerdict → Bool
is_passed r = r.passed

-- `if compile_error:`, where an empty text counts as none.
abbrev pub has_compile_error : Option Text → Bool
has_compile_error none = false
has_compile_error (some t) = is_truthy t

unfoldable pub determine_overall_status : List TestCaseVerdict → Option Text → EvaluationVerdict
determine_overall_status results compile_error_output =
    if has_compile_error compile_error_output
    then compile_error
    else if is_nil results
    then accepted
    else if all is_passed results
    then accepted
    else if any is_passed results
    then partial
    else first_failure results

module _ (F : Floats) where
  open F use {Float, of_int, times, divided, round_1}

  unfoldable pub percentage : ℤ → ℤ → Float
  percentage total_score max_score =
      if ltb_ℤ (pos 0) max_score
      then round_1 (times (divided (of_int total_score) (of_int max_score)) (of_int (pos 100)))
      else of_int (pos 0)

  abbrev pub summarize : Job → List TestCaseData → Progress → GradingSummary Float
  summarize job test_cases p =
      let max_score = sum_ℤ weight_of test_cases in
      record {
        submission_id = job.submission_id;
        problem_id = job.problem_id;
        overall_status = determine_overall_status p.test_case_results p.compile_error_output;
        total_score = p.total_score;
        max_score = max_score;
        percentage = percentage p.total_score max_score;
        passed_count = p.passed_count;
        total_test_cases = length test_cases;
        execution_time_ms = p.total_exec_time;
        peak_memory_bytes = p.peak_memory;
        compile_error = p.compile_error_output;
        test_case_results = p.test_case_results;
      }

module _ (F : Floats) (unified_diff : List Text → List Text → List Text) where
  open F use {Float}

  module _ {W : Type 0} (execute : ExecutionRequest → W → Result Text ExecutionResult × W) where
    unfoldable pub evaluate_submission :
        Job → List TestCaseData → W → Option (GradingSummary Float × W)
    evaluate_submission job test_cases w =
        elim (evaluate_cases F unified_diff execute job test_cases begin w) [
          | none ↦ none
          | some (p, w') ↦ some (summarize F job test_cases p, w')
        ]
