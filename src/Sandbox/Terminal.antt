-- ===== src/Sandbox/Terminal.antt =====
-- The system calls of worker/sandbox/pty_session.py. The system is not part of the program, so it
-- is an argument: a type of states, the calls on it, and what they are documented to do.
use secure_remote_code_execu.Prelude.{
  ℕ, Bool, true, false, not, ◌&&◌, ◌||◌, ◌≡◌, ◌≢◌, List, Result, ok, err, ◌==◌, nat_eq,
}
use secure_remote_code_execu.Prelude.Texts.{Text}

-- The exceptions that are told apart. A `BlockingIOError` is an `OSError`, and so is a
-- `ProcessLookupError`.
pub data Raised : Type 0 where
  os_error : Text → Raised
  process_lookup : Raised
  other : Text → Raised

abbrev pub is_os_error : Raised → Bool
is_os_error (os_error message) = true
is_os_error process_lookup = true
is_os_error (other message) = false

-- What ends a call that is awaited.
pub data Interruption : Type 0 where
  cancelled : Interruption
  failed : Raised → Interruption

-- The list that `termios.tcgetattr` returns.
pub record TermAttrs : Type 0 where
  pub iflag : ℕ
  pub oflag : ℕ
  pub cflag : ℕ
  pub lflag : ℕ
  pub ispeed : ℕ
  pub ospeed : ℕ
  pub cc : List (List ℕ)

-- Each call returns a value or raises, and leaves a state. `read` is the wait until the descriptor
-- is readable, together with `os.read`; `set_size` is the `ioctl` with `TIOCSWINSZ`.
pub record System : Type 1 where
  pub World : Type 0
  pub openpty : World → Result Raised (ℕ × ℕ) × World
  pub set_size : ℕ → List ℕ → World → Result Raised (Unit {0}) × World
  pub get_flags : ℕ → World → Result Raised ℕ × World
  pub set_flags : ℕ → ℕ → World → Result Raised (Unit {0}) × World
  pub tcgetattr : ℕ → World → Result Raised TermAttrs × World
  pub tcsetattr : ℕ → TermAttrs → World → Result Raised (Unit {0}) × World
  pub write : ℕ → List ℕ → World → Result Raised ℕ × World
  pub read : ℕ → ℕ → World → Result Interruption (List ℕ) × World
  pub kill : ℕ → ℕ → World → Result Raised (Unit {0}) × World
  pub close : ℕ → World → Result Raised (Unit {0}) × World
  -- whether a descriptor is open in the worker
  pub holds : World → ℕ → Bool

-- `openpty` opens two descriptors that were not open, or none. `close` gives its descriptor back,
-- also where it raises, and raises only an `OSError`. The other calls open and close nothing.
pub record SystemLaws (s : System) : Type 0 where
  pub openpty-fresh :
      (w : s.World) (m l : ℕ)
      → (s.openpty w).0 ≡ ok (m, l)
      → (m ≢ l) × (s.holds w m ≡ false) × (s.holds w l ≡ false)
  pub holds-openpty :
      (w : s.World) (m l x : ℕ)
      → (s.openpty w).0 ≡ ok (m, l)
      → s.holds (s.openpty w).1 x ≡ ((x == m) || ((x == l) || s.holds w x))
  pub holds-openpty_raises :
      (w : s.World) (e : Raised) (x : ℕ)
      → (s.openpty w).0 ≡ err e
      → s.holds (s.openpty w).1 x ≡ s.holds w x
  pub holds-close :
      (fd : ℕ) (w : s.World) (x : ℕ) → s.holds (s.close fd w).1 x ≡ (not (x == fd) && s.holds w x)
  pub close_raises :
      (fd : ℕ) (w : s.World) (e : Raised) → (s.close fd w).0 ≡ err e → is_os_error e ≡ true
  pub holds-set_size :
      (fd : ℕ) (b : List ℕ) (w : s.World) (x : ℕ) → s.holds (s.set_size fd b w).1 x ≡ s.holds w x
  pub holds-get_flags :
      (fd : ℕ) (w : s.World) (x : ℕ) → s.holds (s.get_flags fd w).1 x ≡ s.holds w x
  pub holds-set_flags :
      (fd n : ℕ) (w : s.World) (x : ℕ) → s.holds (s.set_flags fd n w).1 x ≡ s.holds w x
  pub holds-tcgetattr :
      (fd : ℕ) (w : s.World) (x : ℕ) → s.holds (s.tcgetattr fd w).1 x ≡ s.holds w x
  pub holds-tcsetattr :
      (fd : ℕ) (a : TermAttrs) (w : s.World) (x : ℕ)
      → s.holds (s.tcsetattr fd a w).1 x ≡ s.holds w x
  pub holds-write :
      (fd : ℕ) (b : List ℕ) (w : s.World) (x : ℕ) → s.holds (s.write fd b w).1 x ≡ s.holds w x
  pub holds-read : (fd n : ℕ) (w : s.World) (x : ℕ) → s.holds (s.read fd n w).1 x ≡ s.holds w x
  pub holds-kill :
      (pid sig : ℕ) (w : s.World) (x : ℕ) → s.holds (s.kill pid sig w).1 x ≡ s.holds w x
