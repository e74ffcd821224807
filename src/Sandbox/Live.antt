-- ===== src/Sandbox/Live.antt =====
-- worker/sandbox: what is asked of a sandbox while its program runs. `write_stdin`,
-- `resize_terminal` and `send_signal` of each sandbox are in the child `Live` of its module.
use secure_remote_code_execu.Prelude.{
  ℕ, ◌≡◌, Bool, true, false, ◌&&◌, ◌||◌, Option, some, List, [], ◌∷◌, ◌++◌, Result, ok, err, ltb,
  leb, if◌then◌else◌,
}
use secure_remote_code_execu.Prelude.Texts.{Text, codes}
use secure_remote_code_execu.PyStr.{replace_crlf, replace_cr}
use secure_remote_code_execu.Sandbox.Terminal.{Raised, other}
use secure_remote_code_execu.Sandbox.Pty.{PtySession, Op}
use secure_remote_code_execu.Utf8.{encode}

-- `data: str | bytes`
pub data Data : Type 0 where
  text : Text → Data
  bytes : List ℕ → Data

-- The program on the other side: what writing its input and sending it a signal do, and what was
-- written to it so far. Writing is `stdin.write` with the task that drains it, or `sendall`.
pub record Child (W : Type 0) : Type 0 where
  pub write : List ℕ → W → Result Raised (Unit {0}) × W
  pub signal : ℕ → W → Result Raised (Unit {0}) × W
  pub received : W → List ℕ

-- What a write that succeeds writes is kept for the program, in order, and a signal writes nothing.
pub record ChildLaws {W : Type 0} (c : Child W) : Type 0 where
  pub received-write :
      (b : List ℕ) (w : W)
      → (c.write b w).0 ≡ ok tt
      → c.received (c.write b w).1 ≡ c.received w ++ b
  pub received-signal : (sig : ℕ) (w : W) → c.received (c.signal sig w).1 ≡ c.received w

-- `self.active_pty`, and `self.active_process` with whether it has a standard input.
pub record Live : Type 0 where
  pub active_pty : Option PtySession
  pub active_process : Option Bool

abbrev pub LiveOp : Type 0 → Type 0 → Type 0
LiveOp W A = Live × W → Result Raised A × (Live × W)

-- A call of the terminal session.
abbrev pub on_pty : {W A : Type 0} → Op W A → PtySession → LiveOp W A
on_pty op p (l, w) = let (r, st) = op (p, w) in (r, (record l { active_pty = some (st.0) }, st.1))

-- `try: return …` with `except Exception: pass`, and with `except Exception: return False`.
abbrev pub done_anyway : Result Raised (Unit {0}) → Result Raised (Unit {0})
done_anyway r = ok tt

abbrev pub succeeded : Result Raised (Unit {0}) → Result Raised Bool
succeeded (ok u) = ok true
succeeded (err e) = ok false

abbrev pub attempt :
    {W A : Type 0}
    → (Result Raised (Unit {0}) → Result Raised A)
    → (W → Result Raised (Unit {0}) × W)
    → LiveOp W A
attempt f g (l, w) = let (r, w') = g w in (f r, (l, w'))

abbrev pub give : {W A : Type 0} → A → LiveOp W A
give a st = (ok a, st)

-- Not a surrogate.
abbrev pub is_scalar : ℕ → Bool
is_scalar c = ltb c 55296 || (leb 57344 c && ltb c 1114112)

abbrev pub all_scalar : Text → Bool
all_scalar [] = true
all_scalar (c ∷ t) = is_scalar c && all_scalar t

-- `text.encode("utf-8")`, which raises at a lone surrogate.
abbrev pub encode_strict : Text → Result Raised (List ℕ)
encode_strict t = if all_scalar t then ok (encode t) else err (other (codes "UnicodeEncodeError"))

-- A call on bytes, where making the bytes may raise.
abbrev pub with_bytes : {W A : Type 0} → Result Raised (List ℕ) → (List ℕ → LiveOp W A) → LiveOp W A
with_bytes (err e) f st = (err e, st)
with_bytes (ok b) f st = f b st

-- `data_bytes` for a raw pipe; `decode` is `bytes.decode` with errors="replace".
abbrev pub decoded : (List ℕ → Text) → Data → Text
decoded decode (text t) = t
decoded decode (bytes b) = decode b

unfoldable pub pipe_bytes : (List ℕ → Text) → Data → Result Raised (List ℕ)
pipe_bytes decode d = encode_strict (replace_cr (replace_crlf (decoded decode d)))

-- `data.encode("utf-8") if isinstance(data, str) else data`
unfoldable pub raw_bytes : Data → Result Raised (List ℕ)
raw_bytes (text t) = encode_strict t
raw_bytes (bytes b) = ok b
