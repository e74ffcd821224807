-- ===== src/Sandbox/Pty/Release.antt =====
-- worker/sandbox/pty_session.py: a session gives its file descriptors back.
use secure_remote_code_execu.Prelude.{
  ℕ, Bool, true, false, not, ◌&&◌, ◌≡◌, refl, Option, none, some, List, Result, ok, err, ◌==◌,
  nat_eq, arith,
}
use secure_remote_code_execu.Prelude.Int.{ℤ}
use secure_remote_code_execu.Sandbox.Terminal.{Raised, is_os_error, System, SystemLaws}
use secure_remote_code_execu.Sandbox.Pty.{
  PtySession, PtyState, suppress_os_error, close_both, close,
}
use secure_remote_code_execu.Sandbox.Pty.Descriptors.{Owns, Sound, Keeps}

Owns-close_slave :
    (base : ℕ → Bool) (m : Option ℕ) (l : ℕ) (h h' : ℕ → Bool)
    → ((x : ℕ) → h' x ≡ (not (x == l) && h x))
    → Owns base m (some l) h
    → Owns base m none h'
Owns-close_slave base m l h h' e o = record {
  same = λ x. ground (arith, e x, o.same x, o.slave_apart x, o.master_apart x);
  master_apart = λ x held. (refl, (o.master_apart x held).1);
  slave_apart = λ x held. cc;
}

Owns-close_master :
    (base : ℕ → Bool) (m : ℕ) (h h' : ℕ → Bool)
    → ((x : ℕ) → h' x ≡ (not (x == m) && h x))
    → Owns base (some m) none h
    → Owns base none none h'
Owns-close_master base m h h' e o = record {
  same = λ x. ground (arith, e x, o.same x, o.master_apart x);
  master_apart = λ x held. cc;
  slave_apart = λ x held. cc;
}

Owns-none :
    (base : ℕ → Bool) (m l : Option ℕ) (h : ℕ → Bool)
    → m ≡ none
    → l ≡ none
    → Owns base m l h
    → (x : ℕ) → h x ≡ base x
Owns-none base none none h e f o = o.same
Owns-none base (some m) l h e f o = absurd (cc e)
Owns-none base none (some l) h e f o = absurd (cc f)

pub none-Owns :
    (base : ℕ → Bool) (m l : Option ℕ) (h : ℕ → Bool)
    → m ≡ none
    → l ≡ none
    → ((x : ℕ) → h x ≡ base x)
    → Owns base m l h
none-Owns base none none h e f same = record {
  same = same;
  master_apart = λ x held. cc;
  slave_apart = λ x held. cc;
}
none-Owns base (some m) l h e f same = absurd (cc e)
none-Owns base none (some l) h e f same = absurd (cc f)

suppress-ok :
    (r : Result Raised (Unit {0}))
    → ((e : Raised) → r ≡ err e → is_os_error e ≡ true)
    → suppress_os_error tt r ≡ ok tt
suppress-ok (ok u) h = refl
suppress-ok (err e) h = rw (h e refl)

-- The session is closed and holds nothing, and what was open without it is open.
pub record Released (s : System) (base : ℕ → Bool) (st : PtyState s.World) : Type 0 where
  pub no_master : (st.0).master_fd ≡ none
  pub no_slave : (st.0).slave_fd ≡ none
  pub is_closed : (st.0).is_open ≡ false
  pub holds_base : (x : ℕ) → s.holds st.1 x ≡ base x

abbrev session : ℤ → ℤ → Option ℕ → Option ℕ → Option ℕ → Bool → List (List ℕ) → PtySession
session c r m l k o q = record {
  cols = c;
  rows = r;
  master_fd = m;
  slave_fd = l;
  child_pid = k;
  is_open = o;
  input_queue = q;
}

module _ (s : System) where
  abbrev close_if : Option ℕ → s.World → s.World
  close_if none w = w
  close_if (some fd) w = (s.close fd w).1

module _ (s : System) (laws : SystemLaws s) where
  close_both_lem :
      (posix : Bool) (c r : ℤ) (m l k : Option ℕ) (q : List (List ℕ)) (w : s.World)
      → close_both posix s true (session c r m l k false q, w)
        ≡ (ok tt, (session c r none none k false q, close_if s m (close_if s l w)))
  close_both_lem posix c r none none k q w = refl
  close_both_lem posix c r (some m) none k q w = simp (suppress-ok _ (laws.close_raises m w))
  close_both_lem posix c r none (some l) k q w = simp (suppress-ok _ (laws.close_raises l w))
  close_both_lem posix c r (some m) (some l) k q w =
      simp
        (suppress-ok _ (laws.close_raises l w), suppress-ok _ (laws.close_raises m (s.close l w).1))

  slave_given_back :
      (base : ℕ → Bool) (m l : Option ℕ) (w : s.World)
      → Owns base m l (s.holds w)
      → Owns base m none (s.holds (close_if s l w))
  slave_given_back base m none w o = o
  slave_given_back base m (some l) w o =
      Owns-close_slave base m l (s.holds w) (s.holds (s.close l w).1) (laws.holds-close l w) o

  master_given_back :
      (base : ℕ → Bool) (m : Option ℕ) (w : s.World)
      → Owns base m none (s.holds w)
      → Owns base none none (s.holds (close_if s m w))
  master_given_back base none w o = o
  master_given_back base (some m) w o =
      Owns-close_master base m (s.holds w) (s.holds (s.close m w).1) (laws.holds-close m w) o

  close_on :
      (on posix : Bool) (base : ℕ → Bool) (c r : ℤ) (m l k : Option ℕ) (q : List (List ℕ))
      (w : s.World)
      → (on ≡ false → (m ≡ none) × (l ≡ none))
      → Owns base m l (s.holds w)
      → ((close_both posix s on (session c r m l k false q, w)).0 ≡ ok tt)
        × Released s base (close_both posix s on (session c r m l k false q, w)).1
  close_on false posix base c r m l k q w plain o = (
    refl,
    record {
      no_master = (plain refl).0;
      no_slave = (plain refl).1;
      is_closed = refl;
      holds_base = Owns-none base m l (s.holds w) (plain refl).0 (plain refl).1 o;
    },
  )
  close_on true posix base c r m l k q w plain o = rw (close_both_lem posix c r m l k q w) (
    refl,
    record {
      no_master = refl;
      no_slave = refl;
      is_closed = refl;
      holds_base = (master_given_back base m _ (slave_given_back base m l w o)).same;
    },
  )

  pub close-Released :
      (posix : Bool) (base : ℕ → Bool) (st : PtyState s.World)
      → Sound posix s base st
      → ((close posix s st).0 ≡ ok tt) × Released s base (close posix s st).1
  unfolding close
  close-Released posix base (p, w) sound =
      close_on posix posix base p.cols p.rows p.master_fd p.slave_fd p.child_pid p.input_queue w
        sound.plain sound.owns

  pub close-Keeps : (posix : Bool) (base : ℕ → Bool) → Keeps posix s base (close posix s)
  close-Keeps posix base st sound =
      let free = (close-Released posix base st sound).1 in
      record {
        owns = none-Owns base _ _ _ free.no_master free.no_slave free.holds_base;
        plain = λ off. (free.no_master, free.no_slave);
      }
