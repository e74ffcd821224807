-- ===== src/Streaming/Json.antt =====
-- The frame that `json.dumps` writes and `json.loads` reads: the two functions are arguments.
use secure_remote_code_execu.Prelude.{ℕ, ◌≡◌, true, Option, some}
use secure_remote_code_execu.Prelude.Texts.{Text, is_truthy}
use secure_remote_code_execu.Sandbox.Models.{StreamEventType}

-- The dictionary that `_format_payload` builds.
pub record Frame : Type 0 where
  pub submission_id : Text
  pub sequence : ℕ
  pub event : StreamEventType
  pub payload : Text
  pub timestamp : Text

-- `loads` gives `none` where it raises; reading what was written gives the same frame. What is
-- written is an object, never the empty text.
pub record FrameCodec : Type 0 where
  pub dumps : Frame → Text
  pub loads : Text → Option Frame
  pub loads-dumps : (f : Frame) → loads (dumps f) ≡ some f
  pub dumps-is_truthy : (f : Frame) → is_truthy (dumps f) ≡ true
