-- ===== src/Tasks/Grading.antt =====
-- worker/tasks/execution.py: `grade_code`, which grades a program as the daemon does, and
-- `reap_orphan_containers`. The returned dictionary has the fields of the summary.
use secure_remote_code_execu.Prelude.{ℕ, Bool, Option, List, length}
use secure_remote_code_execu.Prelude.Texts.{Text}
use secure_remote_code_execu.Grading.Models.{GradingSummary}
use secure_remote_code_execu.Grading.Harness.{evaluate_submission}
use secure_remote_code_execu.Janitor.{Container, Clock, reap_stale_containers}
use secure_remote_code_execu.Tasks.Daemon.{TaskData, Services, mode_of, job_of, cases_of}

module _ (S : Services) where
  open S use {floats}

  -- `execute` is the sandbox, forced to be a process sandbox or not. `none` is a `ValidationError`.
  unfoldable pub grade_code : TaskData → S.W → Option (GradingSummary floats.Float × S.W)
  unfolding mode_of
  grade_code t w =
      evaluate_submission floats S.unified_diff S.execute (job_of S t) (cases_of S t.test_cases) w

-- `{"reaped_count": ..., "reaped_ids": ...}`
abbrev pub reap_orphan_containers :
    Clock → ℕ → (Container → Bool) → Option (List Container) → ℕ × List Text
reap_orphan_containers c lease removes containers =
    let (reaped, left) = reap_stale_containers c lease removes containers in (length reaped, reaped)
