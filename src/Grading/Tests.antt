-- ===== src/Grading/Tests.antt =====
-- Concrete runs of the grading code, and its theorems at them.
use secure_remote_code_execu.Prelude.{
  ℕ, ◌≡◌, ◌↔◌, refl, none, some, List, map, nat_eq, list_eq, if◌then◌else◌, arith,
}
use secure_remote_code_execu.Prelude.Texts.{codes}
use secure_remote_code_execu.Prelude.Int.{◌+ℤ◌}
use secure_remote_code_execu.Sandbox.Models.{validate_request}
use secure_remote_code_execu.PyStr.{is_space}
use secure_remote_code_execu.Grading.Models.{accepted, epsilon, TestCaseVerdict, GradingSummary}
use secure_remote_code_execu.Grading.Normalizer.{normalize_text, tokenize}
use secure_remote_code_execu.Grading.Normalizer.{generate_diff}
use secure_remote_code_execu.Grading.Verifier.{accept, verify}
use secure_remote_code_execu.Grading.Verifier.Tolerance.{AllAgree, verify_epsilon_iff}
use secure_remote_code_execu.Grading.Harness.{
  Job, evaluate_submission, failing, evaluate_cases, build_request, charge, grade_run,
  sandbox_failed, determine_overall_status, percentage,
}
use secure_remote_code_execu.Grading.Harness.Summary.{
  AddsUp, evaluate_submission-AddsUp, evaluate_submission-accepted_iff,
}
use secure_remote_code_execu.Grading.Harness.Returns.{evaluate_submission_returns}
use secure_remote_code_execu.Grading.Sanitize.{
  sanitize_for_student, hidden, shown, with_texts, sanitize_for_student_hides,
}
use secure_remote_code_execu.Grading.Samples.{digits, listing, echo, job, cases, verdicts, graded}

evaluate-cases : evaluate_submission digits listing echo job cases 0 ≡ some (graded, 3)
unfolding evaluate_submission evaluate_cases build_request validate_request charge grade_run
    sandbox_failed verify normalize_text is_space generate_diff determine_overall_status percentage
    ◌+ℤ◌
evaluate-cases = refl

verify_epsilon_iff_example :
    (verify digits listing epsilon (codes "3 x") (codes "3  x") ≡ accept)
    ↔ AllAgree digits (tokenize (codes "3 x")) (tokenize (codes "3  x"))
verify_epsilon_iff_example = verify_epsilon_iff digits listing (codes "3 x") (codes "3  x")

evaluate_submission-AddsUp_example : AddsUp cases graded
evaluate_submission-AddsUp_example =
    evaluate_submission-AddsUp digits listing echo job cases 0 evaluate-cases

evaluate_submission-accepted_iff_example :
    (graded.overall_status ≡ accepted) ↔ (graded.passed_count ≡ graded.total_test_cases)
evaluate_submission-accepted_iff_example =
    evaluate_submission-accepted_iff digits listing echo job cases 0 evaluate-cases

evaluate_submission_returns_example :
    (r : GradingSummary ℕ × ℕ) × (evaluate_submission digits listing echo job cases 0 ≡ some r)
evaluate_submission_returns_example =
    evaluate_submission_returns digits listing echo job (omega arith) (omega arith) cases 0

abbrev slow_job : Job
slow_job = record job { time_limit_ms = 120001 }

-- The verdicts with other texts on the two hidden test cases.
abbrev other_verdicts : List TestCaseVerdict
other_verdicts =
    map (λ v. if v.is_hidden then with_texts none (some (codes "secret")) none none none v else v)
      verdicts

sanitize_for_student_hides_example :
    sanitize_for_student (record graded { test_case_results = other_verdicts })
    ≡ sanitize_for_student graded
unfolding failing
sanitize_for_student_hides_example = sanitize_for_student_hides graded other_verdicts verdicts (
  shown refl,
  (
    hidden none (some (codes "secret")) none none none refl refl,
    (hidden none (some (codes "secret")) none none none refl refl, tt),
  ),
)
