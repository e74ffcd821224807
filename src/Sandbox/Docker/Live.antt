-- ===== src/Sandbox/Docker/Live.antt =====
-- worker/sandbox/docker_sandbox.py: `write_stdin` and `send_signal`. `resize_terminal` is that of
-- worker/sandbox/base.py.
use secure_remote_code_execu.Prelude.{ℕ, Bool, true, false, List, Result, ok, err}
use secure_remote_code_execu.Prelude.Texts.{Text}
use secure_remote_code_execu.Prelude.Int.{ℤ}
use secure_remote_code_execu.Sandbox.Terminal.{Raised}
use secure_remote_code_execu.Sandbox.Live.{Data, Child, succeeded, done_anyway, pipe_bytes}

-- Whether the sandbox has a `stdin_socket`, and an `active_container`.
pub record Attached : Type 0 where
  pub stdin_socket : Bool
  pub active_container : Bool

module _ {W : Type 0} (c : Child W) where
  abbrev send_all : Bool → Result Raised (List ℕ) → W → Result Raised (Unit {0}) × W
  send_all true (ok b) w = let (r, w') = c.write b w in (done_anyway r, w')
  send_all true (err e) w = (ok tt, w)
  send_all false b w = (ok tt, w)

  unfoldable pub write_stdin : (List ℕ → Text) → Attached → Data → W → Result Raised (Unit {0}) × W
  write_stdin decode a d w = send_all a.stdin_socket (pipe_bytes decode d) w

  abbrev kill_container : Bool → ℕ → W → Result Raised Bool × W
  kill_container true sig w = let (r, w') = c.signal sig w in (succeeded r, w')
  kill_container false sig w = (ok false, w)

  unfoldable pub send_signal : Attached → ℕ → W → Result Raised Bool × W
  send_signal a sig w = kill_container a.active_container sig w

  unfoldable pub resize_terminal : ℤ → ℤ → W → Result Raised Bool × W
  resize_terminal cols rows w = (ok false, w)
