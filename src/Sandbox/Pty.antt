-- ===== src/Sandbox/Pty.antt =====
-- worker/sandbox/pty_session.py: every method of `PTYSession`. A method takes the session and the
-- state of the system, and leaves both, also where it raises. `posix` is `IS_POSIX`.
pub mod Descriptors
pub mod Release
pub mod Opening
pub mod Samples
mod Tests
use Prim.Native.Nat.{bit_or}
use secure_remote_code_execu.Prelude.{
  ℕ, ◌+◌, ◌*◌, ◌/◌, ◌%◌, Bool, true, false, not, Option, none, some, List, [], ◌∷◌, ◌++◌, leb,
  if◌then◌else◌, Result, ok, err,
}
use secure_remote_code_execu.Prelude.Texts.{Text, codes}
use secure_remote_code_execu.Prelude.Int.{ℤ, pos, negsuc, ltb_ℤ}
use secure_remote_code_execu.Sandbox.Terminal.{
  Raised, other, is_os_error, Interruption, cancelled, failed, System,
}
use secure_remote_code_execu.Utf8.{encode}

pub record PtySession : Type 0 where
  pub cols : ℤ
  pub rows : ℤ
  pub master_fd : Option ℕ
  pub slave_fd : Option ℕ
  pub child_pid : Option ℕ
  pub is_open : Bool
  pub input_queue : List (List ℕ)

abbrev pub new_session : ℤ → ℤ → PtySession
new_session c r = record {
  cols = c;
  rows = r;
  master_fd = none;
  slave_fd = none;
  child_pid = none;
  is_open = false;
  input_queue = [];
}

-- `max(low, n)`
abbrev pub at_least : ℕ → ℤ → ℤ
at_least low n = if ltb_ℤ (pos low) n then n else pos low

-- An unsigned short of `struct.pack`, the low byte first; `struct.error` is raised out of range.
abbrev pub pack_short : ℤ → Result Raised (List ℕ)
pack_short (pos n) =
    if leb n 65535 then ok ((n % 256) ∷ (n / 256) ∷ []) else err (other (codes "struct.error"))
pack_short (negsuc n) = err (other (codes "struct.error"))

-- `struct.pack("HHHH", rows, cols, 0, 0)`
abbrev pub pack_both : Result Raised (List ℕ) → Result Raised (List ℕ) → Result Raised (List ℕ)
pack_both (ok r) (ok c) = ok (r ++ c ++ (0 ∷ 0 ∷ 0 ∷ 0 ∷ []))
pack_both (ok r) (err e) = err e
pack_both (err e) c = err e

abbrev pub pack_winsize : ℤ → ℤ → Result Raised (List ℕ)
pack_winsize r c = pack_both (pack_short r) (pack_short c)

-- `except Exception: return False`
abbrev pub true_or_false : Result Raised (Unit {0}) → Result Raised Bool
true_or_false (ok _) = ok true
true_or_false (err e) = ok false

-- The result under `contextlib.suppress(OSError)`.
abbrev pub suppress_os_error : {A : Type 0} → A → Result Raised A → Result Raised A
suppress_os_error a (ok b) = ok b
suppress_os_error a (err e) = if is_os_error e then ok a else err e

-- `except (BlockingIOError, OSError)`, without the number of bytes that were written.
abbrev pub done_writing : Result Raised ℕ → Result Raised (Unit {0})
done_writing (ok n) = ok tt
done_writing (err e) = if is_os_error e then ok tt else err e

-- `except (OSError, asyncio.CancelledError): return b""`
abbrev pub read_or_nothing : Result Interruption (List ℕ) → Result Raised (List ℕ)
read_or_nothing (ok b) = ok b
read_or_nothing (err cancelled) = ok []
read_or_nothing (err (failed e)) = if is_os_error e then ok [] else err e

-- `os.O_NONBLOCK` and `termios.ONLCR` on Linux.
abbrev o_nonblock : ℕ
o_nonblock = 2048

abbrev onlcr : ℕ
onlcr = 4

-- The session with the state of the system.
abbrev pub PtyState : Type 0 → Type 0
PtyState W = PtySession × W

-- A step that may raise, and leaves a state also then.
abbrev pub Op : Type 0 → Type 0 → Type 0
Op W A = PtyState W → Result Raised A × PtyState W

module _ {W A B : Type 0} where
  abbrev pub continue_with :
      Result Raised A × PtyState W → (A → Op W B) → Result Raised B × PtyState W
  continue_with (ok a, st) f = f a st
  continue_with (err e, st) f = (err e, st)

  infixl 5 ◌>>=◌ ◌>>◌
  abbrev pub ◌>>=◌ : Op W A → (A → Op W B) → Op W B
  ◌>>=◌ m f st = continue_with (m st) f

  abbrev pub ◌>>◌ : Op W A → Op W B → Op W B
  m >> k = m >>= λ _. k

module _ {W : Type 0} where
  abbrev pub call : {A : Type 0} → (W → Result Raised A × W) → Op W A
  call f (p, w) = let (r, w') = f w in (r, (p, w'))

  abbrev pub update : (PtySession → PtySession) → Op W (Unit {0})
  update f (p, w) = (ok tt, (f p, w))

  abbrev pub with_state : {A : Type 0} → (PtySession → Op W A) → Op W A
  with_state f (p, w) = f p (p, w)

  -- A system call whose result is read.
  abbrev pub call_as :
      {E A B : Type 0} → (Result E A → Result Raised B) → (W → Result E A × W) → Op W B
  call_as f g (p, w) = let (r, w') = g w in (f r, (p, w'))

  -- `raise e`, or what a call that raised comes to
  abbrev pub give : {A : Type 0} → Result Raised A → Op W A
  give r st = (r, st)

  abbrev pub return : {A : Type 0} → A → Op W A
  return a st = (ok a, st)

-- The file descriptors that `open` returns.
abbrev pub Fds : Type 0
Fds = Option ℕ × Option ℕ

module _ (posix : Bool) (s : System) where
  abbrev pub issue_size : Result Raised (List ℕ) → ℕ → Op s.World Bool
  issue_size (ok winsize) fd = call_as true_or_false (s.set_size fd winsize)
  issue_size (err e) fd = give (true_or_false (err e))

  abbrev pub apply_size : Bool → Option ℕ → ℤ → ℤ → Op s.World Bool
  apply_size false fd c r = return true
  apply_size true none c r = return true
  apply_size true (some fd) c r = issue_size (pack_winsize r c) fd

  unfoldable pub set_window_size : ℤ → ℤ → Op s.World Bool
  set_window_size c r = do
    update (λ p. record p { cols = at_least 10 c; rows = at_least 4 r })
    with_state (λ p. apply_size posix p.master_fd p.cols p.rows)

  -- `with contextlib.suppress(OSError): os.close(fd)`
  abbrev pub close_quietly : ℕ → Op s.World (Unit {0})
  close_quietly fd = call_as (suppress_os_error tt) (s.close fd)

  abbrev pub close_slave : Option ℕ → Op s.World (Unit {0})
  close_slave none = return tt
  close_slave (some fd) = do close_quietly fd; update (λ p. record p { slave_fd = none })

  abbrev pub close_master : Option ℕ → Op s.World (Unit {0})
  close_master none = return tt
  close_master (some fd) = do close_quietly fd; update (λ p. record p { master_fd = none })

  abbrev pub close_both : Bool → Op s.World (Unit {0})
  close_both false = return tt
  close_both true = do
    with_state (λ p. close_slave p.slave_fd)
    with_state (λ p. close_master p.master_fd)

  unfoldable pub close : Op s.World (Unit {0})
  close = do update (λ p. record p { is_open = false }); close_both posix

  -- `fcntl` and `termios` on the new pair: no blocking on the master, and `\n` becomes `\r\n`.
  unfoldable pub configure : ℕ → ℕ → Op s.World (Unit {0})
  configure m l = do
    flags ← call (s.get_flags m)
    call (s.set_flags m (bit_or flags o_nonblock))
    attrs ← call (s.tcgetattr l)
    call (s.tcsetattr l (record attrs { oflag = bit_or attrs.oflag onlcr }))

  -- The body of the `try` in `open`, behind `pty.openpty`.
  unfoldable pub set_up : ℕ → ℕ → Op s.World Fds
  unfolding configure set_window_size
  set_up m l = do
    update (λ p. record p { master_fd = some m; slave_fd = some l })
    with_state (λ p. set_window_size p.cols p.rows)
    configure m l
    update (λ p. record p { is_open = true })
    with_state (λ p. return (p.master_fd, p.slave_fd))

  unfoldable pub allocate : Op s.World Fds
  unfolding set_up
  allocate = do pair ← call s.openpty; set_up pair.0 pair.1

  -- `except Exception: self.close(); raise`
  abbrev pub or_close : Result Raised Fds → Op s.World Fds
  or_close (ok a) = return a
  or_close (err e) = close >> give (err e)

  abbrev pub after_try : Result Raised Fds × PtyState s.World → Result Raised Fds × PtyState s.World
  after_try (r, st) = or_close r st

  abbrev pub open_on : Bool → Op s.World Fds
  open_on false st = (ok (none, none), (record (st.0) { is_open = true }, st.1))
  open_on true st = after_try (allocate st)

  unfoldable pub open_session : Op s.World Fds
  unfolding allocate close
  open_session = open_on posix

  abbrev pub write_to : Bool → Option ℕ → List ℕ → Op s.World (Unit {0})
  write_to true (some fd) b = call_as done_writing (s.write fd b)
  write_to true none b = update (λ p. record p { input_queue = p.input_queue ++ b ∷ [] })
  write_to false fd b = update (λ p. record p { input_queue = p.input_queue ++ b ∷ [] })

  -- `data_bytes` of `write_input`; a `str` is encoded first, by `write_text`.
  unfoldable pub write_bytes : List ℕ → Op s.World (Unit {0})
  write_bytes b = with_state (λ p. if p.is_open then write_to posix p.master_fd b else return tt)

  unfoldable pub write_input : Text → Op s.World (Unit {0})
  unfolding write_bytes
  write_input t = write_bytes (encode t)

  abbrev pub read_from : Bool → Option ℕ → ℕ → Op s.World (List ℕ)
  read_from true (some fd) n = call_as read_or_nothing (s.read fd n)
  read_from true none n = return []
  read_from false fd n = return []

  unfoldable pub read_output : ℕ → Op s.World (List ℕ)
  read_output n = with_state (λ p. if p.is_open then read_from posix p.master_fd n else return [])

  abbrev pub kill_child : Option ℕ → ℕ → Op s.World Bool
  kill_child none sig = return false
  kill_child (some pid) sig = call_as true_or_false (s.kill pid sig)

  unfoldable pub send_signal : ℕ → Op s.World Bool
  send_signal sig = with_state (λ p. kill_child p.child_pid sig)

  -- `with session: body`, where `__exit__` closes whatever the body did, and hides no exception.
  abbrev pub leave_with :
      {A : Type 0} → Result Raised A × PtyState s.World → Result Raised A × PtyState s.World
  leave_with (r, st) = continue_with (close st) (λ _ st'. (r, st'))

  unfoldable pub with_session : {A : Type 0} → Op s.World A → Op s.World A
  unfolding open_session close
  with_session body = do open_session; λ st. leave_with (body st)
