-- ===== src/Tasks/Daemon/Turns.antt =====
-- What a turn of the daemon does with the queue.
use secure_remote_code_execu.Prelude.{
  suc, ◌≡◌, refl, ap, Bool-cases, inl, inr, Option, none, some, List, [], ◌∷◌, ◌++◌, length,
}
use secure_remote_code_execu.Prelude.Texts.{Text, is_truthy}
use secure_remote_code_execu.Sandbox.Models.{ExecutionRequest, validate_request}
use secure_remote_code_execu.Grading.Models.{GradingSummary}
use secure_remote_code_execu.Grading.Harness.{evaluate_submission}
use secure_remote_code_execu.Tasks.Daemon.{
  TaskData, Services, Daemon, finish_grading, grade_job, run_valid, run_job, handle_task,
  is_grading, handle_parsed, handle_payload, snoc_some, pop_last,
}

-- The queue in the order in which it is served.
abbrev pub oldest_first : List Text → List Text
oldest_first [] = []
oldest_first (x ∷ q) = oldest_first q ++ x ∷ []

pub data Popped (q : List Text) (r : Option (List Text × Text)) : Type 0 where
  nothing : q ≡ [] → r ≡ none → Popped q r
  popped :
      (before : List Text) (raw : Text)
      → r ≡ some (before, raw)
      → oldest_first q ≡ raw ∷ oldest_first before
      → length q ≡ suc (length before)
      → Popped q r

snoc_some-Popped :
    (x : Text) (q : List Text) (r : Option (List Text × Text))
    → Popped q r
    → Popped (x ∷ q) (snoc_some x r)
snoc_some-Popped x q r (nothing e f) =
    popped [] x (ap (snoc_some x) f) (ap (λ l. oldest_first l ++ x ∷ []) e)
      (ap (λ l. suc (length l)) e)
snoc_some-Popped x q r (popped before raw e f g) =
    popped (x ∷ before) raw (ap (snoc_some x) e) (ap (λ l. l ++ x ∷ []) f) (ap suc g)

pub pop_last-Popped : (q : List Text) → Popped q (pop_last q)
pop_last-Popped [] = nothing refl refl
pop_last-Popped (x ∷ q) = snoc_some-Popped x q (pop_last q) (pop_last-Popped q)

module _ (S : Services) where
  -- What handling a payload leaves alone.
  pub record Keeps (d e : Daemon S) : Type 0 where
    pub queue : e.queue ≡ d.queue
    pub taken : e.taken ≡ d.taken
    pub running : e.running ≡ d.running

  Keeps-same : (d : Daemon S) → Keeps d d
  Keeps-same d = record { queue = refl; taken = refl; running = refl }

  finish_grading-Keeps :
      (t : TaskData) (o : Option (GradingSummary S.floats.Float × S.W)) (d : Daemon S)
      → Keeps d (finish_grading S t o d)
  finish_grading-Keeps t none d = Keeps-same d
  finish_grading-Keeps t (some x) d = record { queue = refl; taken = refl; running = refl }

  run_valid-Keeps :
      (t : TaskData) (o : Option ExecutionRequest) (d : Daemon S) → Keeps d (run_valid S t o d)
  unfolding run_valid
  run_valid-Keeps t none d = Keeps-same d
  run_valid-Keeps t (some r) d = record { queue = refl; taken = refl; running = refl }

  handle_task-Keeps : (t : TaskData) (d : Daemon S) → Keeps d (handle_task S t d)
  unfolding grade_job run_job
  handle_task-Keeps t d = elim (Bool-cases (is_truthy t.submission_id)) [
    | inl y ↦ simp (y) (elim (Bool-cases (is_grading S t)) [
      | inl g ↦ simp (g) (
          finish_grading-Keeps t
            (evaluate_submission S.floats S.unified_diff S.execute _ _ d.sandbox) d)
      | inr n ↦ simp (n) (run_valid-Keeps t (validate_request t.request) d)
    ])
    | inr n ↦ simp (n) (Keeps-same d)
  ]

  handle_parsed-Keeps : (o : Option TaskData) (d : Daemon S) → Keeps d (handle_parsed S o d)
  handle_parsed-Keeps none d = Keeps-same d
  handle_parsed-Keeps (some t) d = handle_task-Keeps t d

  pub handle_payload-Keeps : (raw : Text) (d : Daemon S) → Keeps d (handle_payload S raw d)
  unfolding handle_payload
  handle_payload-Keeps raw d = handle_parsed-Keeps (S.parse raw) d
