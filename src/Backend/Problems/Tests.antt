-- ===== src/Backend/Problems/Tests.antt =====
-- The problems of a small course, and the theorems on problems at them.
use secure_remote_code_execu.Prelude.{
  ℕ, ◌≡◌, refl, Bool, true, false, none, some, List, [], ◌∷◌, map, Result, ok, keep_if, arith, ◌+◌,
  Bool-cases, inl, inr, ◌==◌, list_eq, nat_eq,
}
use mathlib.Core.List.{Permᴰ}
use mathlib.Core.List.Permᴰ
use secure_remote_code_execu.Prelude.Texts.{Text, codes}
use secure_remote_code_execu.Prelude.Int.{ℤ, pos}
use secure_remote_code_execu.Database.{User, Submission}
use secure_remote_code_execu.Sandbox.Models.{ExecutionRequest, ExecutionResult}
use secure_remote_code_execu.Grading.Samples.{digits, listing, result, graded}
use secure_remote_code_execu.Grading.Models.{GradingSummary}
use secure_remote_code_execu.Grading.Harness.{failing, evaluate_submission}
use secure_remote_code_execu.Grading.Harness.Returns.{evaluate_submission_returns}
use secure_remote_code_execu.Grading.Sanitize.{sanitize_for_student, sanitize_verdict}
use secure_remote_code_execu.Backend.Submissions.{get_submission}
use secure_remote_code_execu.Backend.Problems.{
  Problem, TestCase, Catalog, ProblemCreate, TestCaseCreate, ProblemDetailRead, Loading, is_shown,
  test_case_read, new_cases, problem_of, test_case_of, find_problem, get_problem_by_id_or_slug,
  create_problem, cases_of,
}
use secure_remote_code_execu.Backend.Problems.Unique.{
  IsCatalog, get_problem_by_id_or_slug-create_problem, IsAsGiven, given_cases,
}
use secure_remote_code_execu.Backend.Problems.Seed.{SeedIds, seed_default_problems_if_empty}
use secure_remote_code_execu.Backend.Problems.Grade.{
  GradingSubmissionCreate, case_data, sort_cases, job_for, persisted, being_graded,
  get_grading_scorecard, submit_and_grade_problem,
}
use secure_remote_code_execu.Backend.Endpoints.{submit_for_grading}
use secure_remote_code_execu.Backend.Endpoints.Grades.{Submitted, submit_for_grading-Submitted}
use secure_remote_code_execu.Backend.Problems.Grade.Order.{
  Reordered, same, exchange, submit_and_grade_problem-Reordered,
}
use secure_remote_code_execu.Backend.Problems.Grade.Scorecard.{
  sanitize_row, get_grading_scorecard-hides, get_submission-submit_and_grade_problem,
}

abbrev empty : Catalog
empty = record { problems = []; test_cases = [] }

empty-IsCatalog : IsCatalog empty
empty-IsCatalog = record { ids = λ k. omega arith; slugs = λ k. omega arith }

abbrev loading : Loading
loading = record {
  by_order = λ ts. ts;
  oldest_first = λ ps. ps;
  parse_uuid = λ t. none;
  upper = λ t. t;
}

abbrev case_in : Text → Bool → TestCaseCreate
case_in text is_hidden = record {
  input_data = text;
  expected_output = text;
  is_hidden = is_hidden;
  weight = pos 10;
  order = pos 0;
  explanation = none;
}

abbrev prob_in : ProblemCreate
prob_in = record {
  title = codes "Echo";
  slug = codes "echo";
  description = [];
  difficulty = codes "EASY";
  time_limit_ms = 2000;
  memory_limit_mb = 128;
  is_published = true;
  test_cases = case_in (codes "a") false ∷ case_in (codes "b") true ∷ [];
}

abbrev case_id : ℕ → Text
case_id n = n ∷ []

get_problem_by_id_or_slug-create_problem_example :
    (p : Problem) × (c' : Catalog) × (d : ProblemDetailRead) × (create_problem
        (codes "p1")
        case_id
        prob_in
        empty
      ≡ ok (p, c'))
    × (get_problem_by_id_or_slug loading (codes "echo") false c' ≡ ok (some d))
    × IsAsGiven prob_in d.problem
    × Permᴰ d.sample_test_cases (given_cases false case_id 0 prob_in.test_cases)
get_problem_by_id_or_slug-create_problem_example =
    get_problem_by_id_or_slug-create_problem loading (codes "p1") case_id prob_in empty false
      (λ ts. Permᴰ.refl ts) refl refl refl

abbrev seed_ids : SeedIds
seed_ids = record {
  two_sum_id = codes "1";
  palindrome_id = codes "2";
  fib_id = codes "3";
  case_id = λ p n. n ∷ p;
}

abbrev seeded : Catalog
seeded = seed_default_problems_if_empty seed_ids empty

abbrev echo_problem : Problem
echo_problem = problem_of (codes "p1") prob_in

abbrev echo_cases : List TestCase
echo_cases = new_cases case_id (codes "p1") 0 prob_in.test_cases

abbrev course : Catalog
course = record { problems = echo_problem ∷ []; test_cases = echo_cases }

abbrev shown : ProblemDetailRead
shown = record {
  problem = echo_problem;
  sample_test_cases = map test_case_read (keep_if (is_shown false) echo_cases);
  total_test_cases = 2;
  total_points = pos 20;
}

abbrev student : User
student = record {
  id = codes "u1";
  username = codes "u1";
  email = codes "u1@lab";
  hashed_password = [];
  role = codes "student";
  is_active = true;
}

abbrev sub_in : GradingSubmissionCreate
sub_in = record { language = codes "python"; source_code = codes "print(input())" }

abbrev run_once : ExecutionRequest → ℕ → Result Text ExecutionResult × ℕ
run_once r n = (ok (result r), n + 1)

abbrev harness_run :
    (r : GradingSummary ℕ × ℕ) × (evaluate_submission digits listing run_once
        (job_for (codes "s1") echo_problem sub_in)
        (map case_data (sort_cases echo_cases))
        0
      ≡ some r)
harness_run =
    evaluate_submission_returns digits listing run_once (job_for (codes "s1") echo_problem sub_in)
      (omega arith) (omega arith) (map case_data (sort_cases echo_cases)) 0

get_submission-submit_and_grade_problem_example :
    (s : Submission ℕ) × (get_submission
        (codes "s1")
        student
        (submit_and_grade_problem digits listing run_once loading
          (codes "s1")
          (codes "u1")
          (codes "echo")
          sub_in
          false
          course
          []
          0).rows
      ≡ ok (some s))
    × (s.telemetry ≡ some harness_run.0.0)
    × (s.status ≡ codes "COMPLETED")
unfolding find_problem
get_submission-submit_and_grade_problem_example =
    get_submission-submit_and_grade_problem digits listing run_once (codes "s1") student sub_in []
      refl loading (codes "echo") course echo_problem
      (test_case_of case_id (codes "p1") 0 (case_in (codes "a") false))
      (test_case_of case_id (codes "p1") 1 (case_in (codes "b") true) ∷ []) 0 harness_run.0.1
      harness_run.0.0 refl refl harness_run.1

abbrev graded_row : Submission ℕ
graded_row = persisted graded (being_graded (codes "s1") (codes "u1") echo_problem sub_in)

get_grading_scorecard-hides_example :
    get_grading_scorecard (codes "s1") student (graded_row ∷ [])
    ≡ get_grading_scorecard (codes "s1") student (sanitize_row graded_row ∷ [])
unfolding sanitize_for_student sanitize_verdict failing
get_grading_scorecard-hides_example =
    get_grading_scorecard-hides (codes "s1") student (graded_row ∷ [])
      (sanitize_row graded_row ∷ []) refl refl

course-IsCatalog : IsCatalog course
course-IsCatalog = record { ids = λ k. ground arith; slugs = λ k. ground arith }

submit_for_grading-Submitted_example : Submitted (codes "s1") student [] (
    submit_for_grading digits listing run_once loading seed_ids
      (codes "s1")
      student
      (codes "echo")
      sub_in
      course
      []
      0)
submit_for_grading-Submitted_example =
    submit_for_grading-Submitted digits listing run_once (codes "s1") student sub_in [] loading
      seed_ids (codes "echo") course 0 refl (refl, refl, refl) course-IsCatalog

-- A server that hands out two test cases in the other order.
abbrev swap_two : List TestCase → List TestCase
swap_two (a ∷ (b ∷ [])) = b ∷ a ∷ []
swap_two ts = ts

abbrev swapped : Loading
swapped = record loading { by_order = swap_two }

abbrev case_of : Text → ℤ → TestCase
case_of name order = record {
  id = name;
  problem_id = codes "p1";
  input_data = name;
  expected_output = name;
  is_hidden = false;
  weight = pos 1;
  order = order;
  explanation = none;
}

abbrev two_cases : Catalog
two_cases = record {
  problems = echo_problem ∷ [];
  test_cases = case_of (codes "a") (pos 0) ∷ case_of (codes "b") (pos 1) ∷ [];
}

swapped-Reordered :
    (p : Problem) → Reordered (cases_of loading two_cases p) (cases_of swapped two_cases p)
swapped-Reordered p = elim (Bool-cases (codes "p1" == p.id)) [
  | inl y ↦
      simp (y)
        (exchange [] (case_of (codes "a") (pos 0)) (case_of (codes "b") (pos 1)) [] (λ e. cc) same)
  | inr n ↦ simp (n) same
]

submit_and_grade_problem-Reordered_example :
    submit_and_grade_problem digits listing run_once loading
      (codes "s1")
      (codes "u1")
      (codes "echo")
      sub_in
      false
      two_cases
      []
      0
    ≡ submit_and_grade_problem digits listing run_once swapped
        (codes "s1")
        (codes "u1")
        (codes "echo")
        sub_in
        false
        two_cases
        []
        0
unfolding find_problem
submit_and_grade_problem-Reordered_example =
    submit_and_grade_problem-Reordered digits listing run_once (codes "s1") (codes "u1") sub_in
      false [] 0 loading swapped two_cases two_cases (codes "echo") refl swapped-Reordered
