-- ===== src/Tasks/Reports.antt =====
-- The final report of a stream, as `json.dumps` writes it and `json.loads` reads it. Reading gives
-- what `.get` with its defaults gives of the object, and `none` where it raises.
use secure_remote_code_execu.Prelude.{◌≡◌, Option, some}
use secure_remote_code_execu.Prelude.Texts.{Text}
use secure_remote_code_execu.Sandbox.Process.Stream.{Report}

pub record ReportCodec : Type 0 where
  pub dumps : Report → Text
  pub loads : Text → Option Report
  pub loads-dumps : (r : Report) → loads (dumps r) ≡ some r
