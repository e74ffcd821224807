-- ===== src/Backend/Problems/Grade.antt =====
-- backend/app/services/problem_service.py: submitting to a problem, and reading the scorecard. A
-- `GradingResultRead` has the fields of the summary that it is made from.
pub mod Scorecard
pub mod Order
use secure_remote_code_execu.Prelude.{
  Bool, true, false, Option, none, some, List, [], ◌∷◌, ◌++◌, map, keep_if, ◌==◌, list_eq, nat_eq,
  if◌then◌else◌, Result, ok, err,
}
use secure_remote_code_execu.Prelude.Texts.{Text, codes}
use secure_remote_code_execu.Prelude.Int.{ℤ, ltb_ℤ}
use secure_remote_code_execu.Database.{User, Submission}
use secure_remote_code_execu.Sandbox.Models.{ExecutionRequest, ExecutionResult}
use secure_remote_code_execu.Grading.Floats.{Floats}
use secure_remote_code_execu.Grading.Models.{normalized, TestCaseData, GradingSummary, value}
use secure_remote_code_execu.Grading.Harness.{Job, evaluate_submission}
use secure_remote_code_execu.Grading.Sanitize.{sanitize_for_student}
use secure_remote_code_execu.Backend.Query.{scalar_one_or_none}
use secure_remote_code_execu.Backend.Submissions.{is_admin, visible}
use secure_remote_code_execu.Backend.Problems.{
  Problem, TestCase, Catalog, Loading, cases_of, find_problem,
}

pub record GradingSubmissionCreate : Type 0 where
  pub language : Text
  pub source_code : Text

abbrev pub case_data : TestCase → TestCaseData
case_data t = record {
  id = t.id;
  input_data = t.input_data;
  expected_output = t.expected_output;
  is_hidden = t.is_hidden;
  weight = t.weight;
  order = t.order;
  explanation = t.explanation;
}

-- `sorted(..., key=lambda x: x.order)`, which keeps the order of equal keys.
abbrev pub insert_case : TestCase → List TestCase → List TestCase
insert_case t [] = t ∷ []
insert_case t (u ∷ us) =
    let rest = insert_case t us in if ltb_ℤ u.order t.order then u ∷ rest else t ∷ u ∷ us

abbrev pub sort_cases : List TestCase → List TestCase
sort_cases [] = []
sort_cases (t ∷ ts) = insert_case t (sort_cases ts)

abbrev pub job_for : Text → Problem → GradingSubmissionCreate → Job
job_for submission_id p sub_in = record {
  submission_id = submission_id;
  problem_id = p.id;
  source_code = sub_in.source_code;
  language = sub_in.language;
  time_limit_ms = p.time_limit_ms;
  memory_limit_mb = p.memory_limit_mb;
  mode = normalized;
}

-- What a submission gives: the scorecard, or the message of the exception, and the table.
pub record Graded (Float W : Type 0) : Type 0 where
  pub outcome : Result Text (Submission Float × GradingSummary Float × W)
  pub rows : List (Submission Float)

module _ {Float : Type 0} where
  abbrev pub being_graded : Text → Text → Problem → GradingSubmissionCreate → Submission Float
  being_graded id user_id p sub_in = record {
    id = id;
    user_id = user_id;
    problem_id = some p.id;
    language = sub_in.language;
    source_code = sub_in.source_code;
    stdin_data = none;
    status = codes "GRADING";
    score = none;
    max_score = none;
    grading_status = none;
    exit_code = none;
    execution_time_ms = none;
    peak_memory_bytes = none;
    output_summary = none;
    telemetry = none;
  }

  -- `# Persist results in DB`
  abbrev pub persisted : GradingSummary Float → Submission Float → Submission Float
  persisted summary s = record s {
    score = some summary.total_score;
    max_score = some summary.max_score;
    grading_status = some (value summary.overall_status);
    status = codes "COMPLETED";
    execution_time_ms = some summary.execution_time_ms;
    peak_memory_bytes = some summary.peak_memory_bytes;
    telemetry = some summary;
  }

  abbrev pub sanitized_unless : Bool → GradingSummary Float → GradingSummary Float
  sanitized_unless admin summary = if admin then summary else sanitize_for_student summary

  -- The summary is stored as it is, and sanitised for who is no administrator. `none` is the
  -- `ValidationError` of a request, after which the row stays as it was first written.
  abbrev pub grade_with :
      {W : Type 0}
      → Bool
      → Submission Float
      → List (Submission Float)
      → Option (GradingSummary Float × W)
      → Graded Float W
  grade_with admin s rows none = record {
    outcome = err (codes "ValidationError");
    rows = rows ++ s ∷ [];
  }
  grade_with admin s rows (some (summary, w)) = record {
    outcome = ok (persisted summary s, sanitized_unless admin summary, w);
    rows = rows ++ persisted summary s ∷ [];
  }

  abbrev pub card_of :
      Bool → Option (GradingSummary Float) → Result Text (Option (GradingSummary Float))
  card_of admin none = ok none
  card_of admin (some summary) = ok (some (sanitized_unless admin summary))

  abbrev pub scorecard_of :
      User → Result Text (Option (Submission Float)) → Result Text (Option (GradingSummary Float))
  scorecard_of u (err e) = err e
  scorecard_of u (ok none) = ok none
  scorecard_of u (ok (some s)) = card_of (is_admin u) s.telemetry

  unfoldable pub get_grading_scorecard :
      Text → User → List (Submission Float) → Result Text (Option (GradingSummary Float))
  unfolding visible
  get_grading_scorecard submission_id u rows =
      scorecard_of u (scalar_one_or_none (visible u (keep_if (λ s. s.id == submission_id) rows)))

module _ (F : Floats) (unified_diff : List Text → List Text → List Text) {W : Type 0}
    (execute : ExecutionRequest → W → Result Text ExecutionResult × W) where
  open F use {Float}

  abbrev pub grade_cases :
      Text
      → Text
      → Problem
      → List TestCase
      → GradingSubmissionCreate
      → Bool
      → List (Submission Float)
      → W
      → Graded Float W
  grade_cases id user_id p [] sub_in admin rows w = record {
    outcome = err (codes "has no test cases configured");
    rows = rows;
  }
  grade_cases id user_id p (t ∷ ts) sub_in admin rows w =
      grade_with admin (being_graded id user_id p sub_in) rows (
        evaluate_submission F unified_diff execute (job_for id p sub_in)
          (map case_data (sort_cases (t ∷ ts))) w)

  abbrev pub grade_found :
      Loading
      → Text
      → Text
      → GradingSubmissionCreate
      → Bool
      → Catalog
      → Result Text (Option Problem)
      → List (Submission Float)
      → W
      → Graded Float W
  grade_found l id user_id sub_in admin c (err e) rows w = record { outcome = err e; rows = rows }
  grade_found l id user_id sub_in admin c (ok none) rows w = record {
    outcome = err (codes "not found");
    rows = rows;
  }
  grade_found l id user_id sub_in admin c (ok (some p)) rows w =
      grade_cases id user_id p (cases_of l c p) sub_in admin rows w

  -- `submit_and_grade_problem`; `id` is the identifier of the new row.
  unfoldable pub submit_and_grade_problem :
      Loading
      → Text
      → Text
      → Text
      → GradingSubmissionCreate
      → Bool
      → Catalog
      → List (Submission Float)
      → W
      → Graded Float W
  submit_and_grade_problem l id user_id identifier sub_in admin c rows w =
      grade_found l id user_id sub_in admin c (find_problem l identifier c) rows w
