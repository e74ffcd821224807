-- ===== src/Grading/Floats.antt =====
-- Python's `float`, which the kernel does not have: the operations that grading calls.
use secure_remote_code_execu.Prelude.{Bool, Option}
use secure_remote_code_execu.Prelude.Texts.{Text}
use secure_remote_code_execu.Prelude.Int.{ℤ}

pub record Floats : Type 1 where
  pub Float : Type 0
  -- `float(s)`; `none` is the `ValueError`
  pub parse : Text → Option Float
  pub of_int : ℤ → Float
  pub minus : Float → Float → Float
  pub times : Float → Float → Float
  pub divided : Float → Float → Float
  pub abs : Float → Float
  -- `max(a, b)`
  pub maximum : Float → Float → Float
  pub at_most : Float → Float → Bool
  pub is_nan : Float → Bool
  -- `round(x, 1)`
  pub round_1 : Float → Float
  -- the default of `epsilon`, 1e-6
  pub micro : Float
  -- `f"{x}"` and `f"{x:.2e}"`
  pub show : Float → Text
  pub show_2e : Float → Text
