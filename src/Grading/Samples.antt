-- ===== src/Grading/Samples.antt =====
-- A small machine, a problem with three cases, and what grading a submission to it gives.
use secure_remote_code_execu.Prelude.{
  ℕ, ◌+◌, ◌-◌, ◌*◌, ◌/◌, Bool, true, false, ◌&&◌, Option, none, some, Result, ok, err, List, [],
  ◌∷◌, leb, ltb, ◌==◌, nat_eq, list_eq, if◌then◌else◌,
}
use secure_remote_code_execu.Prelude.Texts.{Text, codes, show_nat}
use secure_remote_code_execu.Prelude.Int.{pos, pos_part}
use secure_remote_code_execu.Sandbox.Models
use secure_remote_code_execu.Sandbox.Models.{ExecutionRequest, ExecutionResult, completed}
use secure_remote_code_execu.Grading.Floats.{Floats}
use secure_remote_code_execu.Grading.Models.{
  accepted, partial, wrong_answer, system_error, normalized, TestCaseData, TestCaseVerdict,
  GradingSummary,
}
use secure_remote_code_execu.Grading.Harness.{Job, failing}

-- Whole numbers of one digit in place of floats.
abbrev pub digit_value : Text → Option ℕ
digit_value (c ∷ []) = if leb 48 c && leb c 57 then some (c - 48) else none
digit_value _ = none

abbrev pub digits : Floats
digits = record {
  Float = ℕ;
  parse = digit_value;
  of_int = pos_part;
  minus = λ a b. (a - b) + (b - a);
  times = λ a b. a * b;
  divided = λ a b. a / b;
  abs = λ a. a;
  maximum = λ a b. if ltb a b then b else a;
  at_most = leb;
  is_nan = λ a. false;
  round_1 = λ a. a;
  micro = 0;
  show = show_nat;
  show_2e = show_nat;
}

-- A diff that lists the lines of the output.
abbrev pub listing : List Text → List Text → List Text
listing expected actual = actual

-- A program that prints its input, unless it does not compile; the sandbox counts its calls.
abbrev pub result : ExecutionRequest → ExecutionResult
result r = record {
  status = if r.source_code == codes "bad" then Models.compile_error else completed;
  exit_code = some (pos 0);
  stdout = elim r.stdin_data [ none ↦ [] | some t ↦ t ];
  stderr = codes "error: expected ';'";
  execution_time_ms = 20;
  peak_memory_bytes = some 4096;
  error_message = none;
  compile_output = [];
}

abbrev pub echo : ExecutionRequest → ℕ → Result Text ExecutionResult × ℕ
echo r n = (if n == 2 then err (codes "daemon gone") else ok (result r), n + 1)

abbrev pub job : Job
job = record {
  submission_id = codes "s1";
  problem_id = codes "p1";
  source_code = codes "print(input())";
  language = codes "python";
  time_limit_ms = 2000;
  memory_limit_mb = 128;
  mode = normalized;
}

abbrev pub case_of : Text → Text → Bool → TestCaseData
case_of input expected is_hidden = record {
  id = input;
  input_data = input;
  expected_output = expected;
  is_hidden = is_hidden;
  weight = pos 10;
  order = pos 1;
  explanation = none;
}

abbrev pub cases : List TestCaseData
cases =
    case_of (codes "a") (codes "a ") false
    ∷ case_of (codes "b") (codes "c") true
    ∷ case_of (codes "d") (codes "d") true
    ∷ []

abbrev pub verdicts : List TestCaseVerdict
verdicts =
    record (failing (case_of (codes "a") (codes "a ") false) accepted 20 4096 (some (codes "a"))
      none) { passed = true; earned_points = pos 10 }
    ∷ record (failing (case_of (codes "b") (codes "c") true) wrong_answer 20 4096 (some (codes "b"))
        (some (codes "Output mismatch after whitespace normalization"))) { diff = some (codes "b") }
    ∷ failing (case_of (codes "d") (codes "d") true) system_error 0 0 none
        (some (codes "System error: daemon gone"))
    ∷ []

-- A pass, a wrong answer, and a sandbox that raises.
abbrev pub graded : GradingSummary ℕ
graded = record {
  submission_id = codes "s1";
  problem_id = codes "p1";
  overall_status = partial;
  total_score = pos 10;
  max_score = pos 30;
  percentage = 0;
  passed_count = 1;
  total_test_cases = 3;
  execution_time_ms = 40;
  peak_memory_bytes = 4096;
  compile_error = none;
  test_case_results = verdicts;
}
