-- ===== src/Database.antt =====
-- backend/app/models: the rows of users and of submissions, which the gateway and the workers write.
-- `Float` is the type of the percentage of a grading summary. The telemetry is `none` for `{}`, and
-- else the summary that was dumped into it; time stamps are left out.
use secure_remote_code_execu.Prelude.{ℕ, Bool, Option}
use secure_remote_code_execu.Prelude.Texts.{Text}
use secure_remote_code_execu.Prelude.Int.{ℤ}
use secure_remote_code_execu.Grading.Models.{GradingSummary}

pub record User : Type 0 where
  pub id : Text
  pub username : Text
  pub email : Text
  pub hashed_password : Text
  pub role : Text
  pub is_active : Bool

pub record Submission (Float : Type 0) : Type 0 where
  pub id : Text
  pub user_id : Text
  pub problem_id : Option Text
  pub language : Text
  pub source_code : Text
  pub stdin_data : Option Text
  pub status : Text
  pub score : Option ℤ
  pub max_score : Option ℤ
  pub grading_status : Option Text
  pub exit_code : Option ℤ
  pub execution_time_ms : Option ℕ
  pub peak_memory_bytes : Option ℕ
  pub output_summary : Option Text
  pub telemetry : Option (GradingSummary Float)
