-- ===== src/Grading/Harness/Marks.antt =====
-- Marks and the overall verdict, from the verdicts of the test cases.
use secure_remote_code_execu.Prelude.{
  ◌≡◌, sym, ap, ◌∙◌, ◌≢◌, ◌↔◌, inl, inr, refl, Bool, true, false, Option, List, [], ◌∷◌, All, all,
  any, sum_of, length, Bool-cases, if◌then◌else◌, arith,
}
use secure_remote_code_execu.Prelude.Texts.{Text}
use secure_remote_code_execu.Prelude.Int.{ℤ, pos, ◌+ℤ◌, ◌≤ℤ◌, sum_from, int_laws}
use secure_remote_code_execu.PyStr.{is_nil}
use secure_remote_code_execu.Grading.Models.{
  EvaluationVerdict, accepted, partial, TestCaseData, TestCaseVerdict,
}
use secure_remote_code_execu.Grading.Harness.{
  is_passed, first_failure, has_compile_error, determine_overall_status, weight_of,
}
use secure_remote_code_execu.Grading.Harness.Step.{IsSound, Scores}
use secure_remote_code_execu.Grading.Harness.Tally.{earned, passes, Matches, sum_of-passes-le}

-- Marks of a sound verdict for a weight that is not negative.
Scores_bounds :
    (b : Bool) (verdict : EvaluationVerdict) (w e : ℤ)
    → Scores b verdict w e
    → pos 0 ≤ℤ w
    → (pos 0 ≤ℤ e) × (e ≤ℤ w)
Scores_bounds true verdict w e (_, full) h = rw full (h, omega arith)
Scores_bounds false verdict w e (_, none_earned) h = rw none_earned (omega arith, h)

-- For a positive weight, full marks are for a pass only.
Scores-full :
    (b : Bool) (verdict : EvaluationVerdict) (w e : ℤ)
    → Scores b verdict w e
    → pos 1 ≤ℤ w
    → w ≤ℤ e
    → b ≡ true
Scores-full true verdict w e s h k = refl
Scores-full false verdict w e (_, none_earned) h k = absurd (omega (arith, rw none_earned at k))

Scores-pass :
    (b : Bool) (verdict : EvaluationVerdict) (w e : ℤ)
    → Scores b verdict w e
    → b ≡ true
    → (verdict ≡ accepted) × (e ≡ w)
Scores-pass true verdict w e s h = s
Scores-pass false verdict w e s h = cc

Scores-fail :
    (b : Bool) (verdict : EvaluationVerdict) (w e : ℤ)
    → Scores b verdict w e
    → b ≡ false
    → verdict ≢ accepted
Scores-fail true verdict w e s h = cc
Scores-fail false verdict w e s h = s.0

-- With no negative weight, marks lie between nothing and the sum of the weights.
pub sum_earned_bounds :
    (tcs : List TestCaseData) (vs : List TestCaseVerdict) (a b : ℤ)
    → Matches tcs vs
    → All IsSound vs
    → All (λ tc. pos 0 ≤ℤ weight_of tc) tcs
    → pos 0 ≤ℤ a
    → a ≤ℤ b
    → (pos 0 ≤ℤ sum_from earned a vs) × (sum_from earned a vs ≤ℤ sum_from weight_of b tcs)
sum_earned_bounds [] [] a b m s n h k = (h, k)
sum_earned_bounds [] (v ∷ vs) a b m s n h k = absurd m
sum_earned_bounds (tc ∷ tcs) [] a b m s n h k = absurd m
sum_earned_bounds (tc ∷ tcs) (v ∷ vs) a b m s n h k =
    let bounds =
      Scores_bounds v.passed v.status v.weight v.earned_points s.0 (rw m.0.same_weight n.0) in
    let below = rw m.0.same_weight at (bounds.1) in
    sum_earned_bounds tcs vs (a +ℤ v.earned_points) (b +ℤ tc.weight) m.1 s.1 n.1
      (omega (int_laws, bounds.0)) (omega (int_laws, below))

-- With positive weights, full marks are for passing every test case only.
pub sum_earned_full :
    (tcs : List TestCaseData) (vs : List TestCaseVerdict) (a b : ℤ)
    → Matches tcs vs
    → All IsSound vs
    → All (λ tc. pos 1 ≤ℤ weight_of tc) tcs
    → a ≤ℤ b
    → sum_from weight_of b tcs ≤ℤ sum_from earned a vs
    → (b ≤ℤ a) × (sum_of passes vs ≡ length vs)
sum_earned_full [] [] a b m s n h k = (k, refl)
sum_earned_full [] (v ∷ vs) a b m s n h k = absurd m
sum_earned_full (tc ∷ tcs) [] a b m s n h k = absurd m
sum_earned_full (tc ∷ tcs) (v ∷ vs) a b m s n h k =
    let weight = v.weight in
    let heavy = rw (sym m.0.same_weight) at (n.0) in
    let bounds =
      Scores_bounds v.passed v.status v.weight v.earned_points s.0 (omega (arith, heavy)) in
    let below = rw m.0.same_weight at (bounds.1) in
    let rest =
      sum_earned_full tcs vs (a +ℤ v.earned_points) (b +ℤ tc.weight) m.1 s.1 n.1
        (omega (int_laws, below)) k in
    let pass =
      Scores-full v.passed v.status v.weight v.earned_points s.0 heavy
        (rw m.0.same_weight (omega (int_laws, rest.0))) in
    (omega (int_laws, rest.0, below), rw pass (omega (arith, rest.1)))

-- Passing every test case gives full marks.
pub full-sum_earned :
    (tcs : List TestCaseData) (vs : List TestCaseVerdict) (a : ℤ)
    → Matches tcs vs
    → All IsSound vs
    → sum_of passes vs ≡ length vs
    → sum_from earned a vs ≡ sum_from weight_of a tcs
full-sum_earned [] [] a m s h = refl
full-sum_earned [] (v ∷ vs) a m s h = absurd m
full-sum_earned (tc ∷ tcs) [] a m s h = absurd m
full-sum_earned (tc ∷ tcs) (v ∷ vs) a m s h = elim (Bool-cases v.passed) [
  | inl e ↦
      let mark =
        (Scores-pass v.passed v.status v.weight v.earned_points s.0 e).1 ∙ m.0.same_weight in
      ap (λ x. sum_from earned (a +ℤ x) vs) mark
      ∙ full-sum_earned tcs vs (a +ℤ tc.weight) m.1 s.1 (omega (arith, rw e at h))
  | inr e ↦ absurd (omega (arith, sum_of-passes-le vs, rw e at h))
]

all_passed_iff :
    (vs : List TestCaseVerdict) → (all is_passed vs ≡ true) ↔ (sum_of passes vs ≡ length vs)
all_passed_iff [] = ((λ h. refl), (λ h. refl))
all_passed_iff (v ∷ vs) = ground (arith, all_passed_iff vs, sum_of-passes-le vs)

first_failure-ne-accepted :
    (vs : List TestCaseVerdict)
    → All IsSound vs
    → all is_passed vs ≡ false
    → first_failure vs ≢ accepted
first_failure-ne-accepted [] s h = cc
first_failure-ne-accepted (v ∷ vs) s h = elim (Bool-cases v.passed) [
  | inl e ↦ rw e (first_failure-ne-accepted vs s.1 (rw e at h))
  | inr e ↦ rw e (Scores-fail v.passed v.status v.weight v.earned_points s.0 e)
]

-- The verdict on results without compiler output.
abbrev verdict_of : List TestCaseVerdict → EvaluationVerdict
verdict_of vs =
    if is_nil vs
    then accepted
    else if all is_passed vs
    then accepted
    else if any is_passed vs
    then partial
    else first_failure vs

verdict_of-accepted :
    (vs : List TestCaseVerdict) → all is_passed vs ≡ true → verdict_of vs ≡ accepted
verdict_of-accepted [] h = refl
verdict_of-accepted (v ∷ vs) h = rw h

accepted-verdict_of :
    (vs : List TestCaseVerdict)
    → All IsSound vs
    → verdict_of vs ≡ accepted
    → all is_passed vs ≡ true
accepted-verdict_of [] s h = refl
accepted-verdict_of (v ∷ vs) s h = elim (Bool-cases (all is_passed (v ∷ vs))) [
  | inl e ↦ e
  | inr e ↦ elim (Bool-cases (any is_passed (v ∷ vs))) [
    | inl f ↦ absurd (cc (rw (e, f) at h))
    | inr f ↦ absurd (first_failure-ne-accepted (v ∷ vs) s e (rw (e, f) at h))
  ]
]

-- Sound verdicts make the whole ACCEPTED exactly if all passed and no compiler output is there.
pub determine_overall_status-accepted_iff :
    (vs : List TestCaseVerdict) (c : Option Text)
    → All IsSound vs
    → (determine_overall_status vs c ≡ accepted)
      ↔ ((has_compile_error c ≡ false) × (sum_of passes vs ≡ length vs))
unfolding determine_overall_status
determine_overall_status-accepted_iff vs c s = elim (Bool-cases (has_compile_error c)) [
  | inl e ↦ (λ h. absurd (cc (rw e at h)), λ h. absurd (cc (e, h.0)))
  | inr e ↦ rw e (
    λ h. (refl, (all_passed_iff vs).0 (accepted-verdict_of vs s h)),
    λ h. verdict_of-accepted vs ((all_passed_iff vs).1 h.1),
  )
]
