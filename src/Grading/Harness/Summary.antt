-- ===== src/Grading/Harness/Summary.antt =====
-- What a returned summary says of the submission.
use mathlib.Core.List.{foldl}
use secure_remote_code_execu.Prelude.{
  ◌≡◌, ◌↔◌, inl, inr, refl, sym, ◌∙◌, false, some, Result, List, [], ◌∷◌, All, sum_of, length,
  arith,
}
use secure_remote_code_execu.Prelude.Texts.{Text}
use secure_remote_code_execu.Prelude.Int.{pos, ◌≤ℤ◌, sum_ℤ}
use secure_remote_code_execu.Sandbox.Models.{ExecutionRequest, ExecutionResult}
use secure_remote_code_execu.Grading.Floats.{Floats}
use secure_remote_code_execu.Grading.Models.{
  accepted, TestCaseData, TestCaseVerdict, GradingSummary,
}
use secure_remote_code_execu.Grading.Harness.{
  Job, Progress, weight_of, has_compile_error, summarize, evaluate_submission,
}
use secure_remote_code_execu.Grading.Harness.Step.{IsSound}
use secure_remote_code_execu.Grading.Harness.Tally.{
  earned, passes, duration, peak_step, Matches, FailsIfNotCompiled, Ends,
}
use secure_remote_code_execu.Grading.Harness.Totals.{evaluate_submission-Ends}
use secure_remote_code_execu.Grading.Harness.Marks.{
  sum_earned_bounds, sum_earned_full, full-sum_earned, determine_overall_status-accepted_iff,
}

-- A summary that adds up over its verdicts, which are about these test cases in order.
pub record AddsUp {Float : Type 0} (tcs : List TestCaseData) (s : GradingSummary Float)
    : Type 0 where
  pub verdicts : Matches tcs s.test_case_results
  pub sound : All IsSound s.test_case_results
  pub cases : s.total_test_cases ≡ length s.test_case_results
  pub score : s.total_score ≡ sum_ℤ earned s.test_case_results
  pub maximum : s.max_score ≡ sum_ℤ weight_of tcs
  pub count : s.passed_count ≡ sum_of passes s.test_case_results
  pub time : s.execution_time_ms ≡ sum_of duration s.test_case_results
  pub peak : s.peak_memory_bytes ≡ foldl peak_step 0 s.test_case_results

Matches-length :
    (tcs : List TestCaseData) (vs : List TestCaseVerdict) → Matches tcs vs → length tcs ≡ length vs
Matches-length [] [] h = refl
Matches-length [] (v ∷ vs) h = absurd h
Matches-length (tc ∷ tcs) [] h = absurd h
Matches-length (tc ∷ tcs) (v ∷ vs) h = omega (arith, Matches-length tcs vs h.1)

-- Where all verdicts passed, there is no compile error.
no_compile_error :
    (p : Progress)
    → FailsIfNotCompiled p
    → sum_of passes p.test_case_results ≡ length p.test_case_results
    → has_compile_error p.compile_error_output ≡ false
no_compile_error p (inl e) h = rw e
no_compile_error p (inr l) h = absurd (omega arith)

module _ (F : Floats) (job : Job) (tcs : List TestCaseData) {p : Progress} (ends : Ends tcs p) where
  summarize-AddsUp : AddsUp tcs (summarize F job tcs p)
  summarize-AddsUp = record {
    verdicts = ends.1;
    sound = ends.0.sound;
    cases = Matches-length tcs p.test_case_results ends.1;
    score = ends.0.score;
    maximum = refl;
    count = ends.0.count;
    time = ends.0.time;
    peak = ends.0.peak;
  }

  summarize-accepted_iff :
      let s = summarize F job tcs p in
      (s.overall_status ≡ accepted) ↔ (s.passed_count ≡ s.total_test_cases)
  summarize-accepted_iff =
      let judged =
        determine_overall_status-accepted_iff p.test_case_results p.compile_error_output
          ends.0.sound in
      let counted = ends.0.count in
      let cases = Matches-length tcs p.test_case_results ends.1 in
      (
        λ h. counted ∙ (judged.0 h).1 ∙ sym cases,
        λ h.
            let all_pass = sym counted ∙ h ∙ cases in
            judged.1 (no_compile_error p ends.2 all_pass, all_pass),
      )

  summarize_bounds :
      All (λ tc. pos 0 ≤ℤ weight_of tc) tcs
      → (pos 0 ≤ℤ p.total_score) × (p.total_score ≤ℤ sum_ℤ weight_of tcs)
  summarize_bounds heavy = rw (ends.0.score) (
      sum_earned_bounds tcs p.test_case_results (pos 0) (pos 0) ends.1 ends.0.sound heavy
        (omega arith) (omega arith))

  summarize_full :
      All (λ tc. pos 1 ≤ℤ weight_of tc) tcs
      → let s = summarize F job tcs p in
        (s.total_score ≡ s.max_score) ↔ (s.overall_status ≡ accepted)
  summarize_full heavy =
      let cases = Matches-length tcs p.test_case_results ends.1 in
      (
        λ h. summarize-accepted_iff.1 (
            ends.0.count
            ∙ (sum_earned_full tcs p.test_case_results (pos 0) (pos 0) ends.1 ends.0.sound heavy
                (omega arith) (rw (sym ends.0.score ∙ h) (omega arith))).1
            ∙ sym cases),
        λ h.
            ends.0.score
            ∙ full-sum_earned tcs p.test_case_results (pos 0) ends.1 ends.0.sound
                (sym ends.0.count ∙ summarize-accepted_iff.0 h ∙ cases),
      )

module _ (F : Floats) (unified_diff : List Text → List Text → List Text) {W : Type 0}
    (execute : ExecutionRequest → W → Result Text ExecutionResult × W) (job : Job)
    (tcs : List TestCaseData) (w : W) {s : GradingSummary F.Float} {w' : W}
    (returned : evaluate_submission F unified_diff execute job tcs w ≡ some (s, w')) where
  -- A returned summary adds up, whatever the sandbox does. It lists one verdict for each test case, in
  -- order, with the identifier, weight, visibility and texts of that case, also behind a compile
  -- error or a sandbox that raises. Exactly the verdicts that passed are ACCEPTED, and they earn
  -- their weight, all others nothing. The score, the number of passes and the time are the sums
  -- over the verdicts, the memory is their maximum, and the maximal score is the sum of the weights.
  pub evaluate_submission-AddsUp : AddsUp tcs s
  evaluate_submission-AddsUp =
      let (p, ends, e) = evaluate_submission-Ends F unified_diff execute job tcs w returned in
      rw e (summarize-AddsUp F job tcs ends)

  -- The overall status is ACCEPTED exactly if as many test cases passed as there are.
  pub evaluate_submission-accepted_iff :
      (s.overall_status ≡ accepted) ↔ (s.passed_count ≡ s.total_test_cases)
  evaluate_submission-accepted_iff =
      let (p, ends, e) = evaluate_submission-Ends F unified_diff execute job tcs w returned in
      rw e (summarize-accepted_iff F job tcs ends)

  -- If no weight is negative, the score lies between zero and the maximal score.
  pub evaluate_submission_bounds :
      All (λ tc. pos 0 ≤ℤ weight_of tc) tcs
      → (pos 0 ≤ℤ s.total_score) × (s.total_score ≤ℤ s.max_score)
  evaluate_submission_bounds heavy =
      let (p, ends, e) = evaluate_submission-Ends F unified_diff execute job tcs w returned in
      rw e (summarize_bounds F job tcs ends heavy)

  -- If all weights are positive, full marks and the overall status ACCEPTED come together only.
  pub evaluate_submission_full :
      All (λ tc. pos 1 ≤ℤ weight_of tc) tcs
      → (s.total_score ≡ s.max_score) ↔ (s.overall_status ≡ accepted)
  evaluate_submission_full heavy =
      let (p, ends, e) = evaluate_submission-Ends F unified_diff execute job tcs w returned in
      rw e (summarize_full F job tcs ends heavy)
