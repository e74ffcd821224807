-- ===== src/Grading/Harness/Step.antt =====
-- What grading one test case adds to the progress, whatever the sandbox reports.
use secure_remote_code_execu.Prelude.{
  ℕ, ◌+◌, ◌≡◌, ◌≢◌, refl, Bool, true, false, Option, none, some, List, [], ◌∷◌, ◌++◌, Bool-cases,
  inl, inr, ltb, if◌then◌else◌, arith,
}
use secure_remote_code_execu.Prelude.Texts.{Text}
use secure_remote_code_execu.Prelude.Int.{ℤ, pos, ◌+ℤ◌, int_laws}
use secure_remote_code_execu.Sandbox.Models.{ExecutionResult}
use secure_remote_code_execu.Grading.Floats.{Floats}
use secure_remote_code_execu.Grading.Models.{
  EvaluationVerdict, accepted, time_limit_exceeded, memory_limit_exceeded, runtime_error,
  compile_error, system_error, TestCaseData, TestCaseVerdict,
}
use secure_remote_code_execu.Grading.Verifier.{verify}
use secure_remote_code_execu.Grading.Harness.{
  Job, Progress, or_zero, failing, append, sandbox_failed, not_compiled, matched, mismatched,
  charge, exceeds_time, exceeds_memory, exited_badly, compare_output, grade_run,
}

-- A verdict that passed is ACCEPTED and earns the weight; any other is not, and earns nothing.
abbrev pub Scores : Bool → EvaluationVerdict → ℤ → ℤ → Type 0
Scores true verdict weight earned = (verdict ≡ accepted) × (earned ≡ weight)
Scores false verdict weight earned = (verdict ≢ accepted) × (earned ≡ pos 0)

abbrev pub IsSound : TestCaseVerdict → Type 0
IsSound v = Scores v.passed v.status v.weight v.earned_points

-- The verdict is about this test case: it carries its identifier, order, visibility, weight and texts.
pub record IsAbout (tc : TestCaseData) (v : TestCaseVerdict) : Type 0 where
  pub same_id : v.test_case_id ≡ tc.id
  pub same_order : v.order ≡ tc.order
  pub same_hidden : v.is_hidden ≡ tc.is_hidden
  pub same_weight : v.weight ≡ tc.weight
  pub same_input : v.input_data ≡ some tc.input_data
  pub same_expected : v.expected_output ≡ some tc.expected_output

abbrev pub one_if : Bool → ℕ
one_if true = 1
one_if false = 0

abbrev pub larger : ℕ → ℕ → ℕ
larger a b = if ltb a b then b else a

-- The progress with one more verdict.
pub record Adds (tc : TestCaseData) (v : TestCaseVerdict) (p p' : Progress) : Type 0 where
  pub about : IsAbout tc v
  pub sound : IsSound v
  pub results : p'.test_case_results ≡ p.test_case_results ++ v ∷ []
  pub score : p'.total_score ≡ p.total_score +ℤ v.earned_points
  pub count : p'.passed_count ≡ p.passed_count + one_if v.passed
  pub time : p'.total_exec_time ≡ p.total_exec_time + v.duration_ms
  pub peak : p'.peak_memory ≡ larger p.peak_memory v.memory_bytes
  pub compiled : p'.compile_error_output ≡ p.compile_error_output

+ℤ-zero : (a : ℤ) → a ≡ a +ℤ pos 0
+ℤ-zero a = omega int_laws

larger-zero : (n : ℕ) → n ≡ larger n 0
larger-zero n = ground arith

module _ (tc : TestCaseData) (verdict : EvaluationVerdict) (fails : verdict ≢ accepted) where
  pub failing-IsAbout : (t m : ℕ) (a e : Option Text) → IsAbout tc (failing tc verdict t m a e)
  unfolding failing
  failing-IsAbout t m a e = record {
    same_id = refl;
    same_order = refl;
    same_hidden = refl;
    same_weight = refl;
    same_input = refl;
    same_expected = refl;
  }

  failing-Adds :
      (r : ExecutionResult) (a e : Option Text) (p : Progress)
      → let v = failing tc verdict r.execution_time_ms (or_zero r.peak_memory_bytes) a e in
        Adds tc v p (append (charge r p) v)
  unfolding failing append charge
  failing-Adds r a e p = record {
    about = failing-IsAbout r.execution_time_ms (or_zero r.peak_memory_bytes) a e;
    sound = (fails, refl);
    results = refl;
    score = +ℤ-zero p.total_score;
    count = omega arith;
    time = refl;
    peak = refl;
    compiled = refl;
  }

-- A test case that was not compiled, with nothing charged for it.
pub not_compiled-Adds :
    (tc : TestCaseData) (p : Progress)
    → Adds tc (not_compiled 0 0 tc) p (append p (not_compiled 0 0 tc))
unfolding not_compiled append
not_compiled-Adds tc p = record {
  about = failing-IsAbout tc compile_error (λ e. cc) 0 0 none (some _);
  sound = ((λ e. cc), refl);
  results = refl;
  score = +ℤ-zero p.total_score;
  count = omega arith;
  time = omega arith;
  peak = larger-zero p.peak_memory;
  compiled = refl;
}

-- The test case whose run reported the compile error.
pub not_compiled-charged :
    (tc : TestCaseData) (r : ExecutionResult) (p : Progress)
    → let v = not_compiled r.execution_time_ms (or_zero r.peak_memory_bytes) tc in
      Adds tc v p (append (charge r p) v)
unfolding not_compiled
not_compiled-charged tc r p = failing-Adds tc compile_error (λ e. cc) r none (some _) p

-- The verdict of a sandbox that raised, and what it adds.
pub sandbox_failed-Adds :
    (tc : TestCaseData) (exc : Text) (p : Progress)
    → (v : TestCaseVerdict) × Adds tc v p (sandbox_failed tc exc p)
unfolding sandbox_failed
sandbox_failed-Adds tc exc p = (
  failing tc system_error 0 0 none (some _),
  record {
    about = failing-IsAbout tc system_error (λ e. cc) 0 0 none (some _);
    sound = ((λ e. cc), refl);
    results = refl;
    score = +ℤ-zero p.total_score;
    count = omega arith;
    time = omega arith;
    peak = larger-zero p.peak_memory;
    compiled = refl;
  },
)

matched-Adds :
    (tc : TestCaseData) (r : ExecutionResult) (p : Progress)
    → let q = charge r p in
      Adds tc (matched tc r) p (
        append
          (record q { passed_count = q.passed_count + 1; total_score = q.total_score +ℤ tc.weight })
          (matched tc r))
unfolding matched append charge
matched-Adds tc r p = record {
  about = record {
    same_id = refl;
    same_order = refl;
    same_hidden = refl;
    same_weight = refl;
    same_input = refl;
    same_expected = refl;
  };
  sound = (refl, refl);
  results = refl;
  score = refl;
  count = refl;
  time = refl;
  peak = refl;
  compiled = refl;
}

mismatched-Adds :
    (tc : TestCaseData) (r : ExecutionResult) (d m : Option Text) (p : Progress)
    → Adds tc (mismatched tc r d m) p (append (charge r p) (mismatched tc r d m))
unfolding mismatched append charge
mismatched-Adds tc r d m p = record {
  about = record {
    same_id = refl;
    same_order = refl;
    same_hidden = refl;
    same_weight = refl;
    same_input = refl;
    same_expected = refl;
  };
  sound = ((λ e. cc), refl);
  results = refl;
  score = +ℤ-zero p.total_score;
  count = omega arith;
  time = refl;
  peak = refl;
  compiled = refl;
}

module _ (F : Floats) (unified_diff : List Text → List Text → List Text) (job : Job)
    (tc : TestCaseData) (r : ExecutionResult) (p : Progress) where
  compare_output-Adds :
      (v : TestCaseVerdict) × Adds tc v p (compare_output F unified_diff job tc r (charge r p))
  unfolding compare_output
  compare_output-Adds =
      elim (Bool-cases (verify F unified_diff job.mode r.stdout tc.expected_output).0) [
        | inl e ↦ (matched tc r, rw (e, compare_output) (matched-Adds tc r p))
        | inr e ↦ (
          let verdict = verify F unified_diff job.mode r.stdout tc.expected_output in
              mismatched tc r verdict.1 verdict.2,
          rw (e, compare_output) (mismatched-Adds tc r _ _ p),
        )
      ]

  -- Whatever a run that compiled reports, grading it adds one sound verdict about its test case.
  pub grade_run-Adds :
      (v : TestCaseVerdict) × Adds tc v p (grade_run F unified_diff job tc r (charge r p))
  unfolding grade_run
  grade_run-Adds = elim (Bool-cases (exceeds_time job r)) [
    | inl e ↦ rw e (_, failing-Adds tc time_limit_exceeded (λ e. cc) r _ _ p)
    | inr e ↦ elim (Bool-cases (exceeds_memory job r)) [
      | inl f ↦ rw (e, f) (_, failing-Adds tc memory_limit_exceeded (λ e. cc) r _ _ p)
      | inr f ↦ elim (Bool-cases (exited_badly r)) [
        | inl g ↦ rw (e, f, g) (_, failing-Adds tc runtime_error (λ e. cc) r _ _ p)
        | inr g ↦ rw (e, f, g) compare_output-Adds
      ]
    ]
  ]
