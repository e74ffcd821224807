-- ===== src/Tasks/Inputs.antt =====
-- worker/tasks/execution.py: `_consume_upstream_inputs`, which passes what the user of a running
-- program sends on to its sandbox. `loads` is `json.loads` with what `.get` gives of the frame, and
-- `none` where it raises; `resolve` is `getattr(signal, name, signal.SIGINT)`.
pub mod Typed
pub mod Keystrokes
use secure_remote_code_execu.Prelude.{
  ℕ, Bool, true, false, Option, none, some, List, [], ◌∷◌, ◌==◌, list_eq, nat_eq, if◌then◌else◌,
}
use secure_remote_code_execu.Prelude.Texts.{Text, codes, is_truthy}
use secure_remote_code_execu.Prelude.Int.{ℤ}

-- The fields with their defaults; a size is `none` where `int` raises.
pub record InputFrame : Type 0 where
  pub frame_type : Option Text
  pub data_text : Text
  pub cols : Option ℤ
  pub rows : Option ℤ
  pub signal_name : Text

-- What is called of the sandbox.
pub data Input : Type 0 where
  write_stdin : Text → Input
  resize_terminal : ℤ → ℤ → Input
  send_signal : ℕ → Input

abbrev resized : Option ℤ → Option ℤ → Option Input
resized (some cols) (some rows) = some (resize_terminal cols rows)
resized none rows = none
resized (some cols) none = none

abbrev pub input_of_type : (Text → ℕ) → Option Text → InputFrame → Option Input
input_of_type resolve none f = none
input_of_type resolve (some t) f =
    if t == codes "stdin"
    then some (write_stdin f.data_text)
    else if t == codes "resize"
    then resized f.cols f.rows
    else if t == codes "signal"
    then some (send_signal (resolve f.signal_name))
    else none

-- A frame; an exception is logged.
abbrev pub input_of_frame : (Text → ℕ) → Option InputFrame → Option Input
input_of_frame resolve none = none
input_of_frame resolve (some f) = input_of_type resolve f.frame_type f

abbrev pub cons_input : Option Input → List Input → List Input
cons_input none inputs = inputs
cons_input (some i) inputs = i ∷ inputs

-- A message; an empty one is skipped.
abbrev pub input_of_message : (Text → ℕ) → (Text → Option InputFrame) → Text → Option Input
input_of_message resolve loads raw =
    if is_truthy raw then input_of_frame resolve (loads raw) else none

-- The loop over the messages of the input channel, until it is cancelled.
unfoldable pub consume_upstream_inputs :
    (Text → ℕ) → (Text → Option InputFrame) → List Text → List Input
consume_upstream_inputs resolve loads [] = []
consume_upstream_inputs resolve loads (raw ∷ messages) =
    cons_input (input_of_message resolve loads raw) (consume_upstream_inputs resolve loads messages)
