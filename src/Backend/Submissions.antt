-- ===== src/Backend/Submissions.antt =====
-- backend/app/services/submission_service.py: submissions by their owner. The job that
-- `create_submission` pushes to the queue of the workers is the text that `json.dumps` makes of it,
-- which is an argument, as is `order_by(Submission.created_at.desc())`.
pub mod Tenants
use secure_remote_code_execu.Prelude.{
  zero, suc, ℕ, Bool, true, false, Option, none, some, ◌&&◌, List, [], ◌∷◌, ◌++◌, length, keep_if,
  ◌==◌, list_eq, nat_eq, if◌then◌else◌, Result, ok, err,
}
use secure_remote_code_execu.Prelude.Texts.{Text, codes}
use secure_remote_code_execu.Database.{User, Submission}
use secure_remote_code_execu.Backend.Query.{scalar_one_or_none, paginate}

pub record SubmissionCreate : Type 0 where
  pub language : Text
  pub source_code : Text
  pub stdin_data : Option Text
  pub timeout_seconds : Option ℕ

abbrev pub is_admin : User → Bool
is_admin u = u.role == codes "admin"

-- The table, and the queue of the workers: the head is where `lpush` adds.
pub record Store (Float : Type 0) : Type 0 where
  pub submissions : List (Submission Float)
  pub queue : List Text

abbrev pub pending : {Float : Type 0} → Text → Text → SubmissionCreate → Submission Float
pending id user_id sub_in = record {
  id = id;
  user_id = user_id;
  problem_id = none;
  language = sub_in.language;
  source_code = sub_in.source_code;
  stdin_data = sub_in.stdin_data;
  status = codes "PENDING";
  score = none;
  max_score = none;
  grading_status = none;
  exit_code = none;
  execution_time_ms = none;
  peak_memory_bytes = none;
  output_summary = none;
  telemetry = none;
}

-- The settings that a job takes, of backend/app/core/config.py.
pub record Settings : Type 0 where
  pub execution_timeout_seconds : ℕ
  pub sandbox_memory_limit : Text
  pub sandbox_cpu_quota : ℕ
  pub sandbox_max_pids : ℕ
  pub sandbox_max_output_bytes : ℕ

-- `task_payload`
pub record Task : Type 0 where
  pub submission_id : Text
  pub user_id : Text
  pub source_code : Text
  pub language : Text
  pub stdin_data : Option Text
  pub timeout_seconds : ℕ
  pub memory_limit : Text
  pub cpu_quota : ℕ
  pub max_pids : ℕ
  pub max_output_bytes : ℕ
  pub trace_context : Text

-- `sub_in.timeout_seconds or settings.EXECUTION_TIMEOUT_SECONDS`
abbrev pub timeout_or : Option ℕ → ℕ → ℕ
timeout_or none default = default
timeout_or (some zero) default = default
timeout_or (some (suc n)) default = suc n

abbrev pub task_of : {Float : Type 0} → Settings → Text → Submission Float → SubmissionCreate → Task
task_of settings headers submission sub_in = record {
  submission_id = submission.id;
  user_id = submission.user_id;
  source_code = submission.source_code;
  language = submission.language;
  stdin_data = submission.stdin_data;
  timeout_seconds = timeout_or sub_in.timeout_seconds settings.execution_timeout_seconds;
  memory_limit = settings.sandbox_memory_limit;
  cpu_quota = settings.sandbox_cpu_quota;
  max_pids = settings.sandbox_max_pids;
  max_output_bytes = settings.sandbox_max_output_bytes;
  trace_context = headers;
}

module _ {Float : Type 0} where
  -- `create_submission`; `id` is the identifier of the new row, the Boolean says whether there is a
  -- Redis client, and `headers` is the trace context.
  unfoldable pub create_submission :
      (Task → Text)
      → Settings
      → Text
      → Bool
      → Text
      → Text
      → SubmissionCreate
      → Store Float
      → Submission Float × Store Float
  create_submission dumps settings headers has_redis id user_id sub_in s =
      let submission = pending id user_id sub_in in
      (
        submission,
        record {
          submissions = s.submissions ++ submission ∷ [];
          queue =
              if has_redis
              then dumps (task_of settings headers submission sub_in) ∷ s.queue
              else s.queue;
        },
      )

  -- `if current_user.role != "admin": query.where(Submission.user_id == current_user.id)`
  unfoldable pub visible : User → List (Submission Float) → List (Submission Float)
  visible u rows = if is_admin u then rows else keep_if (λ s. s.user_id == u.id) rows

  unfoldable pub get_submission :
      Text → User → List (Submission Float) → Result Text (Option (Submission Float))
  get_submission submission_id u rows =
      scalar_one_or_none (visible u (keep_if (λ s. s.id == submission_id) rows))

  -- `newest_first` is the order of this query. It is by `created_at` alone, so that rows with the same
  -- time may be in another order when another page is asked for.
  unfoldable pub list_submissions :
      (List (Submission Float) → List (Submission Float))
      → User
      → ℕ
      → ℕ
      → List (Submission Float)
      → List (Submission Float) × ℕ
  list_submissions newest_first u page page_size rows =
      (paginate page page_size (newest_first (visible u rows)), length (visible u rows))
