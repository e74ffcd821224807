-- ===== src/Grading/Models.antt =====
-- worker/grading/models.py and worker/sandbox/models.py: the values that grading passes around.
-- Identifiers and all other texts are lists of code points; durations, memory and limits are
-- naturals; weights, orders and exit codes may be negative. The timeout of a request is in
-- milliseconds, since every timeout that the program builds is a whole number of them.
use secure_remote_code_execu.Prelude.{ℕ, Bool, List, Option, nat_eq}
use secure_remote_code_execu.Prelude.Texts.{Text, codes}
use secure_remote_code_execu.Prelude.Int.{ℤ}

pub data EvaluationVerdict : Type 0 where
  accepted partial wrong_answer time_limit_exceeded memory_limit_exceeded : EvaluationVerdict
  runtime_error compile_error system_error pending : EvaluationVerdict

-- `verdict.value`
abbrev pub value : EvaluationVerdict → Text
value accepted = codes "ACCEPTED"
value partial = codes "PARTIAL"
value wrong_answer = codes "WRONG_ANSWER"
value time_limit_exceeded = codes "TIME_LIMIT_EXCEEDED"
value memory_limit_exceeded = codes "MEMORY_LIMIT_EXCEEDED"
value runtime_error = codes "RUNTIME_ERROR"
value compile_error = codes "COMPILE_ERROR"
value system_error = codes "SYSTEM_ERROR"
value pending = codes "PENDING"

pub data ComparisonMode : Type 0 where
  normalized strict token epsilon : ComparisonMode

pub record TestCaseData : Type 0 where
  pub id : Text
  pub input_data : Text
  pub expected_output : Text
  pub is_hidden : Bool
  pub weight : ℤ
  pub order : ℤ
  pub explanation : Option Text

pub record TestCaseVerdict : Type 0 where
  pub test_case_id : Text
  pub order : ℤ
  pub status : EvaluationVerdict
  pub passed : Bool
  pub duration_ms : ℕ
  pub memory_bytes : ℕ
  pub is_hidden : Bool
  pub weight : ℤ
  pub earned_points : ℤ
  pub input_data : Option Text
  pub expected_output : Option Text
  pub actual_output : Option Text
  pub diff : Option Text
  pub error_message : Option Text

-- `Float` is the type of the percentage. The empty `metadata` is left out.
pub record GradingSummary (Float : Type 0) : Type 0 where
  pub submission_id : Text
  pub problem_id : Text
  pub overall_status : EvaluationVerdict
  pub total_score : ℤ
  pub max_score : ℤ
  pub percentage : Float
  pub passed_count : ℕ
  pub total_test_cases : ℕ
  pub execution_time_ms : ℕ
  pub peak_memory_bytes : ℕ
  pub compile_error : Option Text
  pub test_case_results : List TestCaseVerdict
