-- ===== src/Backend/Problems/Grade/Scorecard.antt =====
-- What students see of a submission to a problem.
use secure_remote_code_execu.Prelude.{
  ◌≡◌, refl, ap, sym, ◌∙◌, Bool, false, Bool-cases, inl, inr, Option, none, some, List, [], ◌∷◌,
  ◌++◌, map, keep_if, ◌==◌, list_eq, nat_eq, eq_refl, Result, ok, err,
}
use secure_remote_code_execu.Prelude.Texts.{Text, codes}
use secure_remote_code_execu.Database.{User, Submission}
use secure_remote_code_execu.Sandbox.Models.{ExecutionRequest, ExecutionResult}
use secure_remote_code_execu.Grading.Floats.{Floats}
use secure_remote_code_execu.Grading.Models.{GradingSummary}
use secure_remote_code_execu.Grading.Harness.{evaluate_submission}
use secure_remote_code_execu.Grading.Sanitize.{sanitize_for_student, sanitize_for_student_idem}
use secure_remote_code_execu.Backend.Query.{scalar_one_or_none, keep_if-append}
use secure_remote_code_execu.Backend.Submissions.{is_admin, visible, get_submission}
use secure_remote_code_execu.Backend.Problems.{
  Problem, TestCase, Catalog, Loading, cases_of, find_problem,
}
use secure_remote_code_execu.Backend.Problems.Grade.{
  GradingSubmissionCreate, case_data, sort_cases, job_for, being_graded, persisted,
  sanitized_unless, Graded, grade_with, card_of, scorecard_of, get_grading_scorecard, grade_cases,
  grade_found, submit_and_grade_problem,
}

module _ {Float : Type 0} where
  abbrev sanitize_summary : Option (GradingSummary Float) → Option (GradingSummary Float)
  sanitize_summary none = none
  sanitize_summary (some summary) = some (sanitize_for_student summary)

  -- A row whose summary has its hidden texts taken out.
  abbrev pub sanitize_row : Submission Float → Submission Float
  sanitize_row s = record s { telemetry = sanitize_summary s.telemetry }

  keep_if-map :
      (p : Submission Float → Bool) (h : (s : Submission Float) → p (sanitize_row s) ≡ p s)
      (rows : List (Submission Float))
      → keep_if p (map sanitize_row rows) ≡ map sanitize_row (keep_if p rows)
  keep_if-map p h [] = refl
  keep_if-map p h (s ∷ rows) = elim (Bool-cases (p s)) [
    | inl t ↦ simp (h s, t) (ap (λ l. sanitize_row s ∷ l) (keep_if-map p h rows))
    | inr f ↦ simp (h s, f) (keep_if-map p h rows)
  ]

  card_of-sanitize_summary :
      (o : Option (GradingSummary Float)) → card_of false (sanitize_summary o) ≡ card_of false o
  card_of-sanitize_summary none = refl
  card_of-sanitize_summary (some summary) =
      ap (λ s. ok (some s)) (sanitize_for_student_idem summary)

  scorecard_of-sanitize_row :
      (u : User) (rows : List (Submission Float))
      → is_admin u ≡ false
      → scorecard_of u (scalar_one_or_none (map sanitize_row rows))
        ≡ scorecard_of u (scalar_one_or_none rows)
  scorecard_of-sanitize_row u [] h = refl
  scorecard_of-sanitize_row u (s ∷ []) h = rw (h) (card_of-sanitize_summary s.telemetry)
  scorecard_of-sanitize_row u (s ∷ (t ∷ rest)) h = refl

  get_grading_scorecard-map :
      (id : Text) (u : User) (rows : List (Submission Float))
      → is_admin u ≡ false
      → get_grading_scorecard id u (map sanitize_row rows) ≡ get_grading_scorecard id u rows
  unfolding get_grading_scorecard visible
  get_grading_scorecard-map id u rows h = rw (h) (
      ap (λ l. scorecard_of u (scalar_one_or_none (keep_if (λ s. s.user_id == u.id) l)))
        (keep_if-map (λ s. s.id == id) (λ s. refl) rows)
      ∙ ap (λ l. scorecard_of u (scalar_one_or_none l))
          (keep_if-map (λ s. s.user_id == u.id) (λ s. refl) (keep_if (λ s. s.id == id) rows))
      ∙ scorecard_of-sanitize_row u
          (keep_if (λ s. s.user_id == u.id) (keep_if (λ s. s.id == id) rows)) h)

  -- The scorecard that a user who is not an administrator reads is the same for any two tables that
  -- differ at most in what sanitising takes out of the stored summaries.
  pub get_grading_scorecard-hides :
      (id : Text) (u : User) (rows others : List (Submission Float))
      → is_admin u ≡ false
      → map sanitize_row rows ≡ map sanitize_row others
      → get_grading_scorecard id u rows ≡ get_grading_scorecard id u others
  get_grading_scorecard-hides id u rows others h e =
      sym (get_grading_scorecard-map id u rows h)
      ∙ ap (get_grading_scorecard id u) e
      ∙ get_grading_scorecard-map id u others h

  found_own :
      (id : Text) (u : User) (rows : List (Submission Float)) (s : Submission Float)
      → keep_if (λ r. r.id == id) rows ≡ []
      → s.id ≡ id
      → s.user_id ≡ u.id
      → scalar_one_or_none (visible u (keep_if (λ r. r.id == id) (rows ++ s ∷ []))) ≡ ok (some s)
  unfolding visible
  found_own id u rows s fresh i o =
      let found : keep_if (λ r. r.id == id) (rows ++ s ∷ []) ≡ s ∷ [] =
        keep_if-append (λ r. r.id == id) rows (s ∷ []) ∙ simp (fresh, i, eq_refl id) refl in
      ap (λ l. scalar_one_or_none (visible u l)) found ∙ elim (Bool-cases (is_admin u)) [
        | inl a ↦ simp (a) refl
        | inr n ↦ simp (n, o, eq_refl u.id) refl
      ]

-- What is known of a submission: it was refused, or its row stays in grading, or it was graded.
pub data Answered {Float W : Type 0} (id : Text) (u : User) (rows : List (Submission Float))
    (g : Graded Float W) : Type 0 where
  refused : (e : Text) → g.outcome ≡ err e → g.rows ≡ rows → Answered id u rows g
  invalid :
      (s : Submission Float)
      → g.outcome ≡ err (codes "ValidationError")
      → g.rows ≡ rows ++ s ∷ []
      → s.status ≡ codes "GRADING"
      → Answered id u rows g
  graded :
      (s : Submission Float) (card : GradingSummary Float) (w : W)
      → g.outcome ≡ ok (s, card, w)
      → g.rows ≡ rows ++ s ∷ []
      → s.status ≡ codes "COMPLETED"
      → get_grading_scorecard id u g.rows ≡ ok (some card)
      → Answered id u rows g

module _ (F : Floats) (unified_diff : List Text → List Text → List Text) {W : Type 0}
    (execute : ExecutionRequest → W → Result Text ExecutionResult × W) (id : Text) (u : User)
    (sub_in : GradingSubmissionCreate) (rows : List (Submission F.Float))
    (fresh : keep_if (λ r. r.id == id) rows ≡ []) where
  open F use {Float}

  grade_with-Answered :
      (p : Problem) (o : Option (GradingSummary Float × W))
      → Answered id u rows (grade_with (is_admin u) (being_graded id u.id p sub_in) rows o)
  unfolding get_grading_scorecard
  grade_with-Answered p none = invalid (being_graded id u.id p sub_in) refl refl refl
  grade_with-Answered p (some (summary, w)) =
      graded (persisted summary (being_graded id u.id p sub_in))
        (sanitized_unless (is_admin u) summary) w refl refl refl
        (ap (scorecard_of u)
          (found_own id u rows (persisted summary (being_graded id u.id p sub_in)) fresh refl refl))

  grade_cases-Answered :
      (p : Problem) (ts : List TestCase) (w : W)
      → Answered id u rows
          (grade_cases F unified_diff execute id u.id p ts sub_in (is_admin u) rows w)
  grade_cases-Answered p [] w = refused (codes "has no test cases configured") refl refl
  grade_cases-Answered p (t ∷ ts) w = grade_with-Answered p (
      evaluate_submission F unified_diff execute (job_for id p sub_in)
        (map case_data (sort_cases (t ∷ ts))) w)

  grade_found-Answered :
      (l : Loading) (c : Catalog) (o : Result Text (Option Problem)) (w : W)
      → Answered id u rows
          (grade_found F unified_diff execute l id u.id sub_in (is_admin u) c o rows w)
  grade_found-Answered l c (err e) w = refused e refl refl
  grade_found-Answered l c (ok none) w = refused (codes "not found") refl refl
  grade_found-Answered l c (ok (some p)) w = grade_cases-Answered p (cases_of l c p) w

  -- With a new identifier: a submission to a problem is refused and the table is as before; or a
  -- request is invalid, and a row is added that stays GRADING; or one row is added, which is
  -- COMPLETED, and the scorecard that is returned is the one that its owner reads from then on.
  pub submit_and_grade_problem-Answered :
      (l : Loading) (identifier : Text) (c : Catalog) (w : W)
      → Answered id u rows (
          submit_and_grade_problem F unified_diff execute l id u.id identifier sub_in
            (is_admin u)
            c
            rows
            w)
  unfolding submit_and_grade_problem
  submit_and_grade_problem-Answered l identifier c w =
      grade_found-Answered l c (find_problem l identifier c) w

  -- With a new identifier, for any problem with test cases whose grading ends: afterwards the user,
  -- administrator or not, gets a completed row of the submission, whose telemetry is the summary as the
  -- harness made it, with nothing taken out.
  pub get_submission-submit_and_grade_problem :
      (l : Loading) (identifier : Text) (c : Catalog) (p : Problem) (t : TestCase)
      (ts : List TestCase) (w w' : W) (summary : GradingSummary Float)
      → find_problem l identifier c ≡ ok (some p)
      → cases_of l c p ≡ t ∷ ts
      → evaluate_submission F unified_diff execute
          (job_for id p sub_in)
          (map case_data (sort_cases (t ∷ ts)))
          w
        ≡ some (summary, w')
      → (s : Submission Float) × (get_submission id u
            (submit_and_grade_problem F unified_diff execute l id u.id identifier sub_in
              (is_admin u)
              c
              rows
              w).rows
          ≡ ok (some s))
        × (s.telemetry ≡ some summary)
        × (s.status ≡ codes "COMPLETED")
  unfolding submit_and_grade_problem get_submission
  get_submission-submit_and_grade_problem l identifier c p t ts w w' summary f k e = (
    persisted summary (being_graded id u.id p sub_in),
    ap
          (λ o. scalar_one_or_none (
            visible u (
              keep_if (λ r. r.id == id)
                (grade_found F unified_diff execute l id u.id sub_in (is_admin u) c o rows
                  w).rows)))
          f
        ∙ ap
            (λ cs. scalar_one_or_none (
              visible u (
                keep_if (λ r. r.id == id)
                  (grade_cases F unified_diff execute id u.id p cs sub_in (is_admin u) rows
                    w).rows)))
            k
        ∙ ap
            (λ o. scalar_one_or_none (
              visible u (
                keep_if (λ r. r.id == id)
                  (grade_with (is_admin u) (being_graded id u.id p sub_in) rows o).rows)))
            e
        ∙ found_own id u rows (persisted summary (being_graded id u.id p sub_in)) fresh refl refl,
    refl,
    refl,
  )
