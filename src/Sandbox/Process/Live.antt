-- ===== src/Sandbox/Process/Live.antt =====
-- worker/sandbox/process_sandbox.py: `write_stdin`, `resize_terminal` and `send_signal`.
use secure_remote_code_execu.Prelude.{ℕ, Bool, true, false, Option, none, some, List}
use secure_remote_code_execu.Prelude.Texts.{Text}
use secure_remote_code_execu.Prelude.Int.{ℤ}
use secure_remote_code_execu.Sandbox.Terminal.{System}
use secure_remote_code_execu.Sandbox.Pty.{PtySession, set_window_size, write_bytes}
use secure_remote_code_execu.Sandbox.Pty
use secure_remote_code_execu.Sandbox.Live.{
  Data, Child, LiveOp, on_pty, done_anyway, succeeded, attempt, give, with_bytes, pipe_bytes,
  raw_bytes,
}

module _ (posix : Bool) (s : System) (c : Child s.World) (decode : List ℕ → Text) where
  abbrev write_pipe : Option Bool → Data → LiveOp s.World (Unit {0})
  write_pipe (some true) d = with_bytes (pipe_bytes decode d) (λ b. attempt done_anyway (c.write b))
  write_pipe (some false) d = give tt
  write_pipe none d = give tt

  abbrev write_either : Option PtySession → Option Bool → Data → LiveOp s.World (Unit {0})
  write_either (some p) process d = with_bytes (raw_bytes d) (λ b. on_pty (write_bytes posix s b) p)
  write_either none process d = write_pipe process d

  unfoldable pub write_stdin : Data → LiveOp s.World (Unit {0})
  write_stdin d (l, w) = write_either l.active_pty l.active_process d (l, w)

module _ (posix : Bool) (s : System) (c : Child s.World) where
  abbrev resize_pty : Option PtySession → ℤ → ℤ → LiveOp s.World Bool
  resize_pty (some p) cols rows = on_pty (set_window_size posix s cols rows) p
  resize_pty none cols rows = give false

  unfoldable pub resize_terminal : ℤ → ℤ → LiveOp s.World Bool
  resize_terminal cols rows (l, w) = resize_pty l.active_pty cols rows (l, w)

  abbrev signal_either : Option PtySession → Option Bool → ℕ → LiveOp s.World Bool
  signal_either (some p) process sig = on_pty (Pty.send_signal posix s sig) p
  signal_either none (some has_stdin) sig = attempt succeeded (c.signal sig)
  signal_either none none sig = give false

  unfoldable pub send_signal : ℕ → LiveOp s.World Bool
  send_signal sig (l, w) = signal_either l.active_pty l.active_process sig (l, w)
