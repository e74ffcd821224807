-- ===== src/Backend/Endpoints/Grades.antt =====
-- backend/app/api/v1/endpoints/problems.py: submitting to be graded, and reading the result.
use secure_remote_code_execu.Prelude.{
  ◌≡◌, refl, ap, ◌∙◌, Bool, true, Option, none, some, List, [], ◌∷◌, ◌++◌, map, keep_if, ◌==◌,
  list_eq, nat_eq, Result, ok, err,
}
use secure_remote_code_execu.Prelude.Texts.{Text, codes}
use secure_remote_code_execu.Database.{User, Submission}
use secure_remote_code_execu.Sandbox.Models.{ExecutionRequest, ExecutionResult}
use secure_remote_code_execu.Grading.Floats.{Floats}
use secure_remote_code_execu.Grading.Models.{GradingSummary}
use secure_remote_code_execu.Grading.Harness.{evaluate_submission}
use secure_remote_code_execu.Backend.Submissions.{is_admin}
use secure_remote_code_execu.Backend.Problems.{Problem, TestCase, Catalog, Loading, cases_of}
use secure_remote_code_execu.Backend.Problems.Unique.{IsCatalog, find_problem-IsOk}
use secure_remote_code_execu.Backend.Problems.Seed.{
  SeedIds, IsDistinct, seed_default_problems_if_empty, seed_default_problems_if_empty-once,
}
use secure_remote_code_execu.Backend.Problems.Grade.{
  Graded, GradingSubmissionCreate, being_graded, case_data, sort_cases, job_for, grade_with,
  grade_cases, grade_found, submit_and_grade_problem,
}
use secure_remote_code_execu.Backend.Problems.Grade.Scorecard.{
  Answered, refused as refused_by, invalid, graded, submit_and_grade_problem-Answered,
}
use secure_remote_code_execu.Backend.Users.{answered, refused}
use secure_remote_code_execu.Backend.Endpoints.{
  found_or_404, is_value_error, graded_or_404, Posted, posted, submit_for_grading,
  get_grading_result_endpoint,
}

-- What a post is answered with, and what it leaves of the table.
pub data Submitted {Float : Type 0} (id : Text) (u : User) (rows : List (Submission Float))
    (p : Posted Float) : Type 0 where
  nothing : p.answer ≡ refused 404 → p.rows ≡ rows → Submitted id u rows p
  stuck :
      (s : Submission Float)
      → p.answer ≡ refused 404
      → p.rows ≡ rows ++ s ∷ []
      → s.status ≡ codes "GRADING"
      → Submitted id u rows p
  done :
      (s : Submission Float) (card : GradingSummary Float)
      → p.answer ≡ answered 200 card
      → p.rows ≡ rows ++ s ∷ []
      → s.status ≡ codes "COMPLETED"
      → get_grading_result_endpoint id u p.rows ≡ answered 200 card
      → Submitted id u rows p

abbrev is_known : {A : Type 0} → Result Text A → Bool
is_known (ok a) = true
is_known (err e) = is_value_error e

known_404 :
    {Float W : Type 0} (e : Text) (r : Result Text (Submission Float × GradingSummary Float × W))
    → r ≡ err e
    → is_known r ≡ true
    → graded_or_404 r ≡ refused 404
known_404 e (ok x) h k = absurd (cc h)
known_404 e (err f) h k = rw k

module _ {Float W : Type 0} (id : Text) (u : User) (rows : List (Submission Float)) where
  posted-Submitted :
      (c : Catalog) (g : Graded Float W)
      → is_known g.outcome ≡ true
      → Answered id u rows g
      → Submitted id u rows (posted c g)
  unfolding get_grading_result_endpoint
  posted-Submitted c g k (refused_by e o same) = nothing (known_404 e g.outcome o k) same
  posted-Submitted c g k (invalid s o added status) =
      stuck s (known_404 (codes "ValidationError") g.outcome o k) added status
  posted-Submitted c g k (graded s card w o added status read) =
      done s card (ap graded_or_404 o) added status (ap found_or_404 read)

module _ (F : Floats) (unified_diff : List Text → List Text → List Text) {W : Type 0}
    (execute : ExecutionRequest → W → Result Text ExecutionResult × W) (id : Text) (u : User)
    (sub_in : GradingSubmissionCreate) (rows : List (Submission F.Float)) where
  open F use {Float}

  grade_with-known :
      (s : Submission Float) (o : Option (GradingSummary Float × W))
      → is_known (grade_with (is_admin u) s rows o).outcome ≡ true
  grade_with-known s none = refl
  grade_with-known s (some (summary, w)) = refl

  grade_cases-known :
      (p : Problem) (ts : List TestCase) (w : W)
      → is_known
          (grade_cases F unified_diff execute id u.id p ts sub_in (is_admin u) rows w).outcome
        ≡ true
  grade_cases-known p [] w = refl
  grade_cases-known p (t ∷ ts) w = grade_with-known (being_graded id u.id p sub_in) (
      evaluate_submission F unified_diff execute (job_for id p sub_in)
        (map case_data (sort_cases (t ∷ ts))) w)

  grade_found-known :
      (l : Loading) (c : Catalog) (o : Option Problem) (w : W)
      → is_known
          (grade_found F unified_diff execute l id u.id sub_in (is_admin u) c (ok o) rows w).outcome
        ≡ true
  grade_found-known l c none w = refl
  grade_found-known l c (some p) w = grade_cases-known p (cases_of l c p) w

  -- With a new identifier, on problems with unique identifiers and slugs: a post to be graded is
  -- answered with 404 and the table is as before; or with 404 because a request was invalid, and one
  -- row is added that stays GRADING; or with 200, one row is added, which is COMPLETED, and asking for
  -- the result of the submission then gives the scorecard that was answered.
  pub submit_for_grading-Submitted :
      (l : Loading) (ids : SeedIds) (identifier : Text) (c : Catalog) (w : W)
      → keep_if (λ r. r.id == id) rows ≡ []
      → IsDistinct ids
      → IsCatalog c
      → Submitted id u rows
          (submit_for_grading F unified_diff execute l ids id u identifier sub_in c rows w)
  unfolding submit_for_grading submit_and_grade_problem
  submit_for_grading-Submitted l ids identifier c w fresh distinct h =
      let seeded = seed_default_problems_if_empty ids c in
      let (o, e) =
        find_problem-IsOk l identifier seeded
          (seed_default_problems_if_empty-once ids ids c distinct h).0 in
      posted-Submitted id u rows seeded
        (submit_and_grade_problem F unified_diff execute l id u.id identifier sub_in (is_admin u)
          seeded rows w)
        (ap
            (λ r.
              is_known
                (grade_found F unified_diff execute l id u.id sub_in (is_admin u) seeded r rows
                  w).outcome)
            e
          ∙ grade_found-known l seeded o w)
        (submit_and_grade_problem-Answered F unified_diff execute id u sub_in rows fresh l
          identifier seeded w)
