-- ===== src/Backend/Problems/Grade/Order.antt =====
-- backend/app/services/problem_service.py: the order in which test cases are loaded.
use secure_remote_code_execu.Prelude.{
  ◌≡◌, ◌≢◌, refl, ap, ◌∙◌, sym, Bool, Option, none, some, List, [], ◌∷◌, ◌++◌, arith, Result, ok,
  err, map,
}
use secure_remote_code_execu.Prelude.Texts.{Text}
use secure_remote_code_execu.Prelude.Int.{eq_of_parts}
use secure_remote_code_execu.Sandbox.Models.{ExecutionRequest, ExecutionResult}
use secure_remote_code_execu.Database.{Submission}
use secure_remote_code_execu.Grading.Floats.{Floats}
use secure_remote_code_execu.Grading.Harness.{evaluate_submission}
use secure_remote_code_execu.Backend.Problems.{
  Problem, TestCase, Catalog, Loading, cases_of, find_problem,
}
use secure_remote_code_execu.Backend.Problems.Grade.{
  GradingSubmissionCreate, being_graded, case_data, job_for, grade_with, insert_case, sort_cases,
  grade_cases, grade_found, submit_and_grade_problem,
}

-- The same test cases, after exchanges of neighbours whose `order` differs.
pub data Reordered (xs : List TestCase) : List TestCase → Type 0 where
  same : Reordered xs xs
  exchange :
      (before : List TestCase) (t u : TestCase) (after : List TestCase)
      → t.order ≢ u.order
      → Reordered xs (before ++ t ∷ u ∷ after)
      → Reordered xs (before ++ u ∷ t ∷ after)

insert_case-insert_case :
    (t u : TestCase) (ts : List TestCase)
    → t.order ≢ u.order
    → insert_case t (insert_case u ts) ≡ insert_case u (insert_case t ts)
insert_case-insert_case t u [] h = ground (arith, eq_of_parts t.order u.order)
insert_case-insert_case t u (v ∷ ts) h =
    ground (arith, eq_of_parts t.order u.order, insert_case-insert_case t u ts h)

sort_cases-append :
    (before xs ys : List TestCase)
    → sort_cases xs ≡ sort_cases ys
    → sort_cases (before ++ xs) ≡ sort_cases (before ++ ys)
sort_cases-append [] xs ys e = e
sort_cases-append (t ∷ before) xs ys e = ap (insert_case t) (sort_cases-append before xs ys e)

sort_cases-Reordered : {xs ys : List TestCase} → Reordered xs ys → sort_cases xs ≡ sort_cases ys
sort_cases-Reordered same = refl
sort_cases-Reordered (exchange before t u after h r) =
    sort_cases-Reordered r
    ∙ sort_cases-append before (t ∷ u ∷ after) (u ∷ t ∷ after)
        (insert_case-insert_case t u (sort_cases after) h)

insert_case-ne-nil : (t : TestCase) (ts : List TestCase) → insert_case t ts ≢ []
insert_case-ne-nil t [] h = cc
insert_case-ne-nil t (u ∷ us) h = ground arith

module _ (F : Floats) (unified_diff : List Text → List Text → List Text) {W : Type 0}
    (execute : ExecutionRequest → W → Result Text ExecutionResult × W) (id user_id : Text)
    (sub_in : GradingSubmissionCreate) (admin : Bool) (rows : List (Submission F.Float))
    (w : W) where
  open F use {Float}

  grade_cases-sort_cases :
      (p : Problem) (xs ys : List TestCase)
      → sort_cases xs ≡ sort_cases ys
      → grade_cases F unified_diff execute id user_id p xs sub_in admin rows w
        ≡ grade_cases F unified_diff execute id user_id p ys sub_in admin rows w
  grade_cases-sort_cases p [] [] e = refl
  grade_cases-sort_cases p [] (y ∷ ys) e = absurd (insert_case-ne-nil y (sort_cases ys) (sym e))
  grade_cases-sort_cases p (x ∷ xs) [] e = absurd (insert_case-ne-nil x (sort_cases xs) e)
  grade_cases-sort_cases p (x ∷ xs) (y ∷ ys) e =
      ap
        (λ s.
          grade_with admin (being_graded id user_id p sub_in) rows
            (evaluate_submission F unified_diff execute (job_for id p sub_in) (map case_data s) w))
        e

  found_alike :
      (l k : Loading) (c d : Catalog) (o : Result Text (Option Problem))
      → ((p : Problem) → Reordered (cases_of l c p) (cases_of k d p))
      → grade_found F unified_diff execute l id user_id sub_in admin c o rows w
        ≡ grade_found F unified_diff execute k id user_id sub_in admin d o rows w
  found_alike l k c d (err e) alike = refl
  found_alike l k c d (ok none) alike = refl
  found_alike l k c d (ok (some p)) alike =
      grade_cases-sort_cases p (cases_of l c p) (cases_of k d p) (sort_cases-Reordered (alike p))

  -- Two loads of the catalog that find the same problem, and give the test cases of each problem in
  -- orders that differ by exchanges of cases with different `order`: a submission leaves the same
  -- table and the same scorecard, or the same exception.
  pub submit_and_grade_problem-Reordered :
      (l k : Loading) (c d : Catalog) (identifier : Text)
      → find_problem l identifier c ≡ find_problem k identifier d
      → ((p : Problem) → Reordered (cases_of l c p) (cases_of k d p))
      → submit_and_grade_problem F unified_diff execute l id user_id identifier sub_in admin c rows
          w
        ≡ submit_and_grade_problem F unified_diff execute k id user_id identifier sub_in admin d
            rows w
  unfolding submit_and_grade_problem
  submit_and_grade_problem-Reordered l k c d identifier found alike =
      ap (λ o. grade_found F unified_diff execute l id user_id sub_in admin c o rows w) found
      ∙ found_alike l k c d (find_problem k identifier d) alike
