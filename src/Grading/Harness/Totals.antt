-- ===== src/Grading/Harness/Totals.antt =====
-- What holds when the loop over the test cases has ended.
use mathlib.Core.List.{append_assoc, append-nil}
use mathlib.Core.Path.{subst}
use secure_remote_code_execu.Prelude.{
  some_fst, ◌≡◌, refl, sym, some, Result, List, [], ◌∷◌, ◌++◌, Bool-cases, Option-cases,
  Result-cases, inl, inr,
}
use secure_remote_code_execu.Prelude.Texts.{Text}
use secure_remote_code_execu.Sandbox.Models.{
  ExecutionRequest, ExecutionResult, validate_request, is_compile_error,
}
use secure_remote_code_execu.Grading.Floats.{Floats}
use secure_remote_code_execu.Grading.Models.{TestCaseData, GradingSummary}
use secure_remote_code_execu.Grading.Harness.{
  Job, Progress, begin, build_request, sandbox_failed, charge, grade_run, evaluate_cases,
  evaluate_submission, summarize,
}
use secure_remote_code_execu.Grading.Harness.Step.{sandbox_failed-Adds, grade_run-Adds}
use secure_remote_code_execu.Grading.Harness.Tally.{
  IsTallied-begin, Ends, Ends-Adds, compile_failed-Ends,
}

module _ (F : Floats) (unified_diff : List Text → List Text → List Text) {W : Type 0}
    (execute : ExecutionRequest → W → Result Text ExecutionResult × W) (job : Job) where
  evaluate_cases-Ends :
      (tcs seen : List TestCaseData) (p : Progress) (w : W) {p' : Progress} {w' : W}
      → Ends seen p
      → evaluate_cases F unified_diff execute job tcs p w ≡ some (p', w')
      → Ends (seen ++ tcs) p'
  unfolding evaluate_cases
  evaluate_cases-Ends [] seen p w h e = rw append-nil (subst (Ends seen) (some_fst e) h)
  evaluate_cases-Ends (tc ∷ tcs) seen p w h e =
      elim (Option-cases (validate_request (build_request job tc))) [
        | inl invalid ↦ absurd (cc (rw (invalid, evaluate_cases) at e))
        | inr (request, valid) ↦ elim (Result-cases (execute request w).0) [
          | inr (exc, raised) ↦ rw (← append_assoc seen (tc ∷ []) tcs) (
              evaluate_cases-Ends tcs (seen ++ tc ∷ []) (sandbox_failed tc exc p)
                (execute request w).1 (Ends-Adds seen (sandbox_failed-Adds tc exc p) h)
                (rw (valid, raised, evaluate_cases) at e))
          | inl (r, ran) ↦ elim (Bool-cases (is_compile_error r.status)) [
            | inl failed ↦
                subst (Ends (seen ++ tc ∷ tcs))
                  (some_fst (rw (valid, ran, failed, evaluate_cases) at e))
                  (compile_failed-Ends seen tc tcs r p h)
            | inr compiled ↦ rw (← append_assoc seen (tc ∷ []) tcs) (
                evaluate_cases-Ends tcs (seen ++ tc ∷ [])
                  (grade_run F unified_diff job tc r (charge r p)) (execute request w).1
                  (Ends-Adds seen (grade_run-Adds F unified_diff job tc r p) h)
                  (rw (valid, ran, compiled, evaluate_cases) at e))
          ]
        ]
      ]

  -- A returned summary is the one of a final progress that `Ends` describes.
  pub evaluate_submission-Ends :
      (tcs : List TestCaseData) (w : W) {s : GradingSummary F.Float} {w' : W}
      → evaluate_submission F unified_diff execute job tcs w ≡ some (s, w')
      → (p : Progress) × Ends tcs p × (s ≡ summarize F job tcs p)
  unfolding evaluate_submission
  evaluate_submission-Ends tcs w e =
      elim (Option-cases (evaluate_cases F unified_diff execute job tcs begin w)) [
        | inl invalid ↦ absurd (cc (rw (invalid, evaluate_submission) at e))
        | inr ((p, w''), returned) ↦ (
          p,
          evaluate_cases-Ends tcs [] begin w (IsTallied-begin, tt, inl refl) returned,
          sym (some_fst (rw (returned, evaluate_submission) at e)),
        )
      ]
