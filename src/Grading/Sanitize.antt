-- ===== src/Grading/Sanitize.antt =====
-- worker/grading/harness.py: `sanitize_for_student`, which hides the texts of hidden test cases.
use secure_remote_code_execu.Prelude.{
  ◌≡◌, refl, ap, ap₂, ◌∙◌, true, Option, none, some, List, [], ◌∷◌, map, Bool-cases, inl, inr,
  if◌then◌else◌,
}
use secure_remote_code_execu.Prelude.Texts.{Text, codes}
use secure_remote_code_execu.Grading.Models.{value, TestCaseVerdict, GradingSummary}

abbrev redacted : Text
redacted = codes "[REDACTED: HIDDEN TEST CASE]"

unfoldable pub sanitize_verdict : TestCaseVerdict → TestCaseVerdict
sanitize_verdict res =
    if res.is_hidden
    then record {
      test_case_id = res.test_case_id;
      order = res.order;
      status = res.status;
      passed = res.passed;
      duration_ms = res.duration_ms;
      memory_bytes = res.memory_bytes;
      is_hidden = true;
      weight = res.weight;
      earned_points = res.earned_points;
      input_data = some redacted;
      expected_output = some redacted;
      actual_output = none;
      diff = none;
      error_message = if res.passed then none else some (value res.status);
    }
    else res

module _ {Float : Type 0} where
  unfoldable pub sanitize_for_student : GradingSummary Float → GradingSummary Float
  unfolding sanitize_verdict
  sanitize_for_student summary = record summary {
    test_case_results = map sanitize_verdict summary.test_case_results;
  }

-- The texts of a verdict that a student must not see, given anew.
abbrev pub with_texts :
    Option Text
    → Option Text
    → Option Text
    → Option Text
    → Option Text
    → TestCaseVerdict
    → TestCaseVerdict
with_texts input expected actual difference message v = record v {
  input_data = input;
  expected_output = expected;
  actual_output = actual;
  diff = difference;
  error_message = message;
}

-- Two verdicts that differ at most in the texts of a hidden test case.
pub data SameInPublic (u v : TestCaseVerdict) : Type 0 where
  shown : u ≡ v → SameInPublic u v
  hidden :
      (i e a d m : Option Text) → v.is_hidden ≡ true → u ≡ with_texts i e a d m v → SameInPublic u v

abbrev pub AllSameInPublic : List TestCaseVerdict → List TestCaseVerdict → Type 0
AllSameInPublic [] [] = Unit
AllSameInPublic [] (v ∷ vs) = ⊥
AllSameInPublic (u ∷ us) [] = ⊥
AllSameInPublic (u ∷ us) (v ∷ vs) = SameInPublic u v × AllSameInPublic us vs

sanitize_verdict-with_texts :
    (i e a d m : Option Text) (v : TestCaseVerdict)
    → v.is_hidden ≡ true
    → sanitize_verdict (with_texts i e a d m v) ≡ sanitize_verdict v
unfolding sanitize_verdict
sanitize_verdict-with_texts i e a d m v h = rw h

sanitize_verdict-SameInPublic :
    {u v : TestCaseVerdict} → SameInPublic u v → sanitize_verdict u ≡ sanitize_verdict v
sanitize_verdict-SameInPublic (shown e) = ap sanitize_verdict e
sanitize_verdict-SameInPublic {u} {v} (hidden i e a d m h same) =
    ap sanitize_verdict same ∙ sanitize_verdict-with_texts i e a d m v h

map-sanitize_verdict :
    (us vs : List TestCaseVerdict)
    → AllSameInPublic us vs
    → map sanitize_verdict us ≡ map sanitize_verdict vs
map-sanitize_verdict [] [] h = refl
map-sanitize_verdict [] (v ∷ vs) h = absurd h
map-sanitize_verdict (u ∷ us) [] h = absurd h
map-sanitize_verdict (u ∷ us) (v ∷ vs) h =
    ap₂ ◌∷◌ (sanitize_verdict-SameInPublic h.0) (map-sanitize_verdict us vs h.1)

sanitize_verdict_idem :
    (v : TestCaseVerdict) → sanitize_verdict (sanitize_verdict v) ≡ sanitize_verdict v
unfolding sanitize_verdict
sanitize_verdict_idem v = elim (Bool-cases v.is_hidden) [ inl e ↦ rw e | inr e ↦ rw e ]

map-sanitize_verdict_idem :
    (vs : List TestCaseVerdict)
    → map sanitize_verdict (map sanitize_verdict vs) ≡ map sanitize_verdict vs
map-sanitize_verdict_idem [] = refl
map-sanitize_verdict_idem (v ∷ vs) =
    ap₂ ◌∷◌ (sanitize_verdict_idem v) (map-sanitize_verdict_idem vs)

module _ {Float : Type 0} (s : GradingSummary Float) where
  -- Nothing in the summary that `sanitize_for_student` returns depends on the texts of a hidden test
  -- case: not on its input and expected output, nor on the actual output, the difference and the
  -- message of its run. Two summaries that differ in those alone are sanitised to the same one.
  pub sanitize_for_student_hides :
      (us vs : List TestCaseVerdict)
      → AllSameInPublic us vs
      → sanitize_for_student (record s { test_case_results = us })
        ≡ sanitize_for_student (record s { test_case_results = vs })
  unfolding sanitize_for_student
  sanitize_for_student_hides us vs h =
      ap (λ r. record s { test_case_results = r }) (map-sanitize_verdict us vs h)

  -- Sanitising a second time changes nothing.
  pub sanitize_for_student_idem :
      sanitize_for_student (sanitize_for_student s) ≡ sanitize_for_student s
  unfolding sanitize_for_student
  sanitize_for_student_idem =
      ap (λ r. record s { test_case_results = r }) (map-sanitize_verdict_idem s.test_case_results)
