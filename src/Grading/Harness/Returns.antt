-- ===== src/Grading/Harness/Returns.antt =====
-- When an evaluation returns, and when it raises.
use secure_remote_code_execu.Prelude.{
  Result-cases, ◌<◌, ◌⊎◌, ◌≡◌, ◌≤◌, inl, inr, refl, none, some, Result, List, [], ◌∷◌, length,
  Bool-cases, arith,
}
use secure_remote_code_execu.Prelude.Texts.{Text}
use secure_remote_code_execu.Sandbox.Models.{
  ExecutionRequest, ExecutionResult, validate_request, is_compile_error,
}
use secure_remote_code_execu.Grading.Floats.{Floats}
use secure_remote_code_execu.Grading.Models.{TestCaseData, GradingSummary}
use secure_remote_code_execu.Grading.Harness.{
  Job, Progress, begin, build_request, charge, sandbox_failed, grade_run, compile_failed, summarize,
  evaluate_cases, evaluate_submission,
}

module _ (F : Floats) (unified_diff : List Text → List Text → List Text) {W : Type 0}
    (execute : ExecutionRequest → W → Result Text ExecutionResult × W) (job : Job)
    (short : length job.source_code ≤ 65536) (soon : job.time_limit_ms ≤ 120000) where
  build_request-valid :
      (tc : TestCaseData) → validate_request (build_request job tc) ≡ some (build_request job tc)
  unfolding validate_request build_request
  build_request-valid tc = ground arith

  evaluate_cases_returns :
      (tcs : List TestCaseData) (p : Progress) (w : W)
      → (r : Progress × W) × (evaluate_cases F unified_diff execute job tcs p w ≡ some r)
  unfolding evaluate_cases
  evaluate_cases_returns [] p w = ((p, w), refl)
  evaluate_cases_returns (tc ∷ tcs) p w = elim (Result-cases (execute (build_request job tc) w).0) [
    | inr (exc, raised) ↦
        rw (build_request-valid tc, raised, evaluate_cases)
          (evaluate_cases_returns tcs (sandbox_failed tc exc p)
            (execute (build_request job tc) w).1)
    | inl (r, ran) ↦ elim (Bool-cases (is_compile_error r.status)) [
      | inl failed ↦ (
        (compile_failed tc tcs r (charge r p), (execute (build_request job tc) w).1),
        rw (build_request-valid tc, ran, failed, evaluate_cases),
      )
      | inr compiled ↦
          rw (build_request-valid tc, ran, compiled, evaluate_cases)
            (evaluate_cases_returns tcs (grade_run F unified_diff job tc r (charge r p))
              (execute (build_request job tc) w).1)
    ]
  ]

  -- With at most 65536 characters of source and a time limit of at most two minutes, the
  -- evaluation returns a summary, whatever the sandbox does.
  pub evaluate_submission_returns :
      (tcs : List TestCaseData) (w : W)
      → (r : GradingSummary F.Float × W) × (evaluate_submission F unified_diff execute job tcs w
          ≡ some r)
  unfolding evaluate_submission
  evaluate_submission_returns tcs w =
      let ((p, w'), e) = evaluate_cases_returns tcs begin w in
      ((summarize F job tcs p, w'), rw (e, evaluate_submission))

module _ (F : Floats) (unified_diff : List Text → List Text → List Text) {W : Type 0}
    (execute : ExecutionRequest → W → Result Text ExecutionResult × W) where
  -- With a longer source or a longer time limit, the evaluation of one test case or more raises.
  pub evaluate_submission_raises :
      (job : Job) (tc : TestCaseData) (tcs : List TestCaseData) (w : W)
      → (65536 < length job.source_code) ⊎ (120000 < job.time_limit_ms)
      → evaluate_submission F unified_diff execute job (tc ∷ tcs) w ≡ none
  unfolding evaluate_submission evaluate_cases validate_request build_request
  evaluate_submission_raises job tc tcs w h = ground arith
