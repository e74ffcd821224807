-- ===== src/Sandbox/Pty/Samples.antt =====
-- A system with at most eight open descriptors, for the witnesses.
use secure_remote_code_execu.Prelude.{
  ℕ, suc, ◌≤◌, Bool, true, false, not, ◌&&◌, ◌||◌, ◌≡◌, ◌≢◌, refl, List, [], ◌∷◌, ◌++◌, length, any,
  keep_if, sum_of, leb, if◌then◌else◌, Result, ok, err, ◌==◌, nat_eq, arith,
}
use secure_remote_code_execu.Prelude.Texts.{codes}
use secure_remote_code_execu.Sandbox.Terminal.{
  Raised, os_error, process_lookup, TermAttrs, System, SystemLaws,
}
use secure_remote_code_execu.Sandbox.Live.{Child, ChildLaws}

-- The open descriptors.
abbrev has : List ℕ → ℕ → Bool
has w x = any (λ y. x == y) w

abbrev fresh : List ℕ → ℕ
fresh w = suc (sum_of (λ y. y) w)

abbrev open_two : List ℕ → Result Raised (ℕ × ℕ) × List ℕ
open_two w =
    if leb 8 (length w)
    then (err (os_error (codes "too many open files")), w)
    else (ok (fresh w, suc (fresh w)), fresh w ∷ suc (fresh w) ∷ w)

abbrev attributes : TermAttrs
attributes = record {
  iflag = 0;
  oflag = 1;
  cflag = 0;
  lflag = 0;
  ispeed = 15;
  ospeed = 15;
  cc = [];
}

abbrev pub small_system : System
small_system = record {
  World = List ℕ;
  openpty = open_two;
  set_size = λ fd b w. (ok tt, w);
  get_flags = λ fd w. (ok 2, w);
  set_flags = λ fd n w. (ok tt, w);
  tcgetattr = λ fd w. (ok attributes, w);
  tcsetattr = λ fd a w. (ok tt, w);
  write = λ fd b w. (ok (length b), w);
  read = λ fd n w. (ok [], w);
  kill = λ pid sig w. (err process_lookup, w);
  close = λ fd w. (ok tt, keep_if (λ y. not (y == fd)) w);
  holds = has;
}

has-le-sum : (w : List ℕ) (x : ℕ) → has w x ≡ true → x ≤ sum_of (λ y. y) w
has-le-sum [] x h = cc
has-le-sum (y ∷ w) x h = ground (arith, has-le-sum w x)

has-keep_if :
    (fd : ℕ) (w : List ℕ) (x : ℕ)
    → has (keep_if (λ y. not (y == fd)) w) x ≡ (not (x == fd) && has w x)
has-keep_if fd [] x = ground arith
has-keep_if fd (y ∷ w) x = ground (arith, has-keep_if fd w x)

fresh-has : (w : List ℕ) → (has w (fresh w) ≡ false) × (has w (suc (fresh w)) ≡ false)
fresh-has w = ground (arith, has-le-sum w (fresh w), has-le-sum w (suc (fresh w)))

openpty-fresh :
    (w : List ℕ) (m l : ℕ)
    → (open_two w).0 ≡ ok (m, l)
    → (m ≢ l) × (has w m ≡ false) × (has w l ≡ false)
openpty-fresh w m l h = ground (arith, fresh-has w)

holds-openpty :
    (w : List ℕ) (m l x : ℕ)
    → (open_two w).0 ≡ ok (m, l)
    → has (open_two w).1 x ≡ ((x == m) || ((x == l) || has w x))
holds-openpty w m l x h = ground arith

holds-openpty_raises :
    (w : List ℕ) (e : Raised) (x : ℕ) → (open_two w).0 ≡ err e → has (open_two w).1 x ≡ has w x
holds-openpty_raises w e x h = ground arith

pub small_system-laws : SystemLaws small_system
small_system-laws = record {
  openpty-fresh = openpty-fresh;
  holds-openpty = holds-openpty;
  holds-openpty_raises = holds-openpty_raises;
  holds-close = has-keep_if;
  close_raises = λ fd w e h. cc;
  holds-set_size = λ fd b w x. refl;
  holds-get_flags = λ fd w x. refl;
  holds-set_flags = λ fd n w x. refl;
  holds-tcgetattr = λ fd w x. refl;
  holds-tcsetattr = λ fd a w x. refl;
  holds-write = λ fd b w x. refl;
  holds-read = λ fd n w x. refl;
  holds-kill = λ pid sig w x. refl;
}

-- A program whose state is what was written to it; it has ended, so that signals are refused.
abbrev pub reader : Child (List ℕ)
reader = record {
  write = λ b w. (ok tt, w ++ b);
  signal = λ sig w. (err process_lookup, w);
  received = λ w. w;
}

pub reader-laws : ChildLaws reader
reader-laws = record { received-write = λ b w h. refl; received-signal = λ sig w. refl }
