-- ===== src/Sandbox/Pty/Descriptors.antt =====
-- worker/sandbox/pty_session.py: which file descriptors a session holds, and gives back.
use secure_remote_code_execu.Prelude.{
  ℕ, Bool, true, false, ◌||◌, ◌≡◌, ◌∙◌, Option, none, some, List, [], ◌∷◌, Result, ok, err,
  if◌then◌else◌, ◌==◌, nat_eq,
}
use secure_remote_code_execu.Prelude.Int.{ℤ}
use secure_remote_code_execu.Sandbox.Terminal.{Raised, System, SystemLaws}
use secure_remote_code_execu.Sandbox.Pty.{
  PtyState, Op, continue_with, ◌>>=◌, ◌>>◌, call, call_as, return, pack_winsize, true_or_false,
  at_least, issue_size, apply_size, write_to, done_writing, read_from, read_or_nothing, kill_child,
  set_window_size, configure, close, write_bytes, read_output, send_signal,
}

abbrev pub is_held : Option ℕ → ℕ → Bool
is_held none x = false
is_held (some fd) x = x == fd

-- The descriptors that are open are those of the session and those of `base`, and these are apart.
pub record Owns (base : ℕ → Bool) (m l : Option ℕ) (holds : ℕ → Bool) : Type 0 where
  pub same : (x : ℕ) → holds x ≡ (is_held m x || (is_held l x || base x))
  pub master_apart : (x : ℕ) → is_held m x ≡ true → (is_held l x ≡ false) × (base x ≡ false)
  pub slave_apart : (x : ℕ) → is_held l x ≡ true → base x ≡ false

-- A call of the methods of an open session.
pub data Call : Type 0 where
  resize : ℤ → ℤ → Call
  keys : List ℕ → Call
  read : ℕ → Call
  signal : ℕ → Call
  shut : Call

module _ (posix : Bool) (s : System) where
  unfoldable pub perform : Call → Op s.World (Unit {0})
  unfolding set_window_size write_bytes read_output send_signal close
  perform (resize c r) = set_window_size posix s c r >> return tt
  perform (keys b) = write_bytes posix s b
  perform (read n) = read_output posix s n >> return tt
  perform (signal sig) = send_signal posix s sig >> return tt
  perform shut = close posix s

  -- Calls one after the other, until one raises.
  unfoldable pub perform_all : List Call → Op s.World (Unit {0})
  unfolding perform
  perform_all [] = return tt
  perform_all (c ∷ calls) = perform c >> perform_all calls

module _ (posix : Bool) (s : System) (base : ℕ → Bool) where
  -- Without `openpty` the session has no descriptors.
  pub record Sound (st : PtyState s.World) : Type 0 where
    pub owns : Owns base (st.0).master_fd (st.0).slave_fd (s.holds st.1)
    pub plain : posix ≡ false → ((st.0).master_fd ≡ none) × ((st.0).slave_fd ≡ none)

  abbrev pub Keeps : {A : Type 0} → Op s.World A → Type 0
  Keeps m = (st : PtyState s.World) → Sound st → Sound (m st).1

Owns-same :
    (base : ℕ → Bool) (m l : Option ℕ) (h h' : ℕ → Bool)
    → ((x : ℕ) → h' x ≡ h x)
    → Owns base m l h
    → Owns base m l h'
Owns-same base m l h h' e o = record {
  same = λ x. e x ∙ o.same x;
  master_apart = o.master_apart;
  slave_apart = o.slave_apart;
}

-- The steps that open and close nothing.
module _ (posix : Bool) (s : System) (base : ℕ → Bool) where
  continue_with-Sound :
      {A B : Type 0} (r : Result Raised A × PtyState s.World) (f : A → Op s.World B)
      → Sound posix s base r.1
      → ((a : A) → Keeps posix s base (f a))
      → Sound posix s base (continue_with r f).1
  continue_with-Sound (ok a, st) f sound next = next a st sound
  continue_with-Sound (err e, st) f sound next = sound

  pub >>=-Keeps :
      {A B : Type 0} (m : Op s.World A) (f : A → Op s.World B)
      → Keeps posix s base m
      → ((a : A) → Keeps posix s base (f a))
      → Keeps posix s base (m >>= f)
  >>=-Keeps m f keep next st sound = continue_with-Sound (m st) f (keep st sound) next

  pub call_as-Keeps :
      {E A B : Type 0} (f : Result E A → Result Raised B) (g : s.World → Result E A × s.World)
      → ((w : s.World) (x : ℕ) → s.holds (g w).1 x ≡ s.holds w x)
      → Keeps posix s base (call_as f g)
  call_as-Keeps f g same (p, w) sound = record {
    owns = Owns-same base p.master_fd p.slave_fd (s.holds w) (s.holds (g w).1) (same w) sound.owns;
    plain = sound.plain;
  }

module _ (posix : Bool) (s : System) (laws : SystemLaws s) (base : ℕ → Bool) where
  issue_size-Keeps :
      (b : Result Raised (List ℕ)) (fd : ℕ) → Keeps posix s base (issue_size posix s b fd)
  issue_size-Keeps (ok b) fd st sound =
      call_as-Keeps posix s base true_or_false (s.set_size fd b) (laws.holds-set_size fd b) st sound
  issue_size-Keeps (err e) fd st sound = sound

  apply_size-Keeps :
      (on : Bool) (fd : Option ℕ) (c r : ℤ) → Keeps posix s base (apply_size posix s on fd c r)
  apply_size-Keeps false fd c r st sound = sound
  apply_size-Keeps true none c r st sound = sound
  apply_size-Keeps true (some fd) c r st sound = issue_size-Keeps (pack_winsize r c) fd st sound

  pub set_window_size-Keeps : (c r : ℤ) → Keeps posix s base (set_window_size posix s c r)
  unfolding set_window_size
  set_window_size-Keeps c r (p, w) sound =
      apply_size-Keeps posix p.master_fd (at_least 10 c) (at_least 4 r) _
        (record { owns = sound.owns; plain = sound.plain })

  pub configure-Keeps : (m l : ℕ) → Keeps posix s base (configure posix s m l)
  unfolding configure
  configure-Keeps m l =
      >>=-Keeps posix s base (call (s.get_flags m)) _
        (call_as-Keeps posix s base (λ r. r) (s.get_flags m) (laws.holds-get_flags m))
        λ flags.
          >>=-Keeps posix s base (call (s.set_flags m _)) _
            (call_as-Keeps posix s base (λ r. r) (s.set_flags m _) (laws.holds-set_flags m _))
            λ _.
              >>=-Keeps posix s base (call (s.tcgetattr l)) _
                (call_as-Keeps posix s base (λ r. r) (s.tcgetattr l) (laws.holds-tcgetattr l))
                λ attrs.
                  call_as-Keeps posix s base (λ r. r) (s.tcsetattr l _) (laws.holds-tcsetattr l _)

  write_to-Keeps :
      (on : Bool) (fd : Option ℕ) (b : List ℕ) → Keeps posix s base (write_to posix s on fd b)
  write_to-Keeps true (some fd) b st sound =
      call_as-Keeps posix s base done_writing (s.write fd b) (laws.holds-write fd b) st sound
  write_to-Keeps true none b st sound = record { owns = sound.owns; plain = sound.plain }
  write_to-Keeps false fd b st sound = record { owns = sound.owns; plain = sound.plain }

  write_if-Keeps :
      (on : Bool) (fd : Option ℕ) (b : List ℕ)
      → Keeps posix s base (if on then write_to posix s posix fd b else return tt)
  write_if-Keeps true fd b st sound = write_to-Keeps posix fd b st sound
  write_if-Keeps false fd b st sound = sound

  pub write_bytes-Keeps : (b : List ℕ) → Keeps posix s base (write_bytes posix s b)
  unfolding write_bytes
  write_bytes-Keeps b (p, w) sound = write_if-Keeps p.is_open p.master_fd b (p, w) sound

  read_from-Keeps :
      (on : Bool) (fd : Option ℕ) (n : ℕ) → Keeps posix s base (read_from posix s on fd n)
  read_from-Keeps true (some fd) n st sound =
      call_as-Keeps posix s base read_or_nothing (s.read fd n) (laws.holds-read fd n) st sound
  read_from-Keeps true none n st sound = sound
  read_from-Keeps false fd n st sound = sound

  read_if-Keeps :
      (on : Bool) (fd : Option ℕ) (n : ℕ)
      → Keeps posix s base (if on then read_from posix s posix fd n else return [])
  read_if-Keeps true fd n st sound = read_from-Keeps posix fd n st sound
  read_if-Keeps false fd n st sound = sound

  pub read_output-Keeps : (n : ℕ) → Keeps posix s base (read_output posix s n)
  unfolding read_output
  read_output-Keeps n (p, w) sound = read_if-Keeps p.is_open p.master_fd n (p, w) sound

  kill_child-Keeps : (pid : Option ℕ) (sig : ℕ) → Keeps posix s base (kill_child posix s pid sig)
  kill_child-Keeps none sig st sound = sound
  kill_child-Keeps (some pid) sig st sound =
      call_as-Keeps posix s base true_or_false (s.kill pid sig) (laws.holds-kill pid sig) st sound

  pub send_signal-Keeps : (sig : ℕ) → Keeps posix s base (send_signal posix s sig)
  unfolding send_signal
  send_signal-Keeps sig (p, w) sound = kill_child-Keeps p.child_pid sig (p, w) sound
