-- ===== src/Tasks/Inputs/Keystrokes.antt =====
-- worker/tasks/execution.py: what `_consume_upstream_inputs` calls of the process sandbox, down to
-- the bytes that the running program reads.
use secure_remote_code_execu.Prelude.{
  ℕ, ◌≡◌, refl, ap, sym, ◌∙◌, Bool, true, Bool-cases, inl, inr, Result, ok, err, if◌then◌else◌,
  none, some, List, [], ◌∷◌, ◌++◌, arith,
}
use secure_remote_code_execu.Prelude.Texts.{Text}
use mathlib.Core.List.{append_assoc, append-nil}
use secure_remote_code_execu.PyStr.Newlines.{unify_newlines, replace_cr-replace_crlf}
use secure_remote_code_execu.Sandbox.Terminal.{System}
use secure_remote_code_execu.Sandbox.Live.{
  text, Child, ChildLaws, Live, all_scalar, pipe_bytes, encode_strict, with_bytes, attempt,
  done_anyway,
}
use secure_remote_code_execu.Sandbox.Terminal.{Raised}
use secure_remote_code_execu.Sandbox.Process.Live as Sandbox
use secure_remote_code_execu.Tasks.Inputs.{Input, write_stdin, resize_terminal, send_signal}
use secure_remote_code_execu.Utf8.{encode}

-- The bytes of a text that is typed, with all line ends as `\n`; none, if it has a lone surrogate.
unfoldable pub typed_text : Text → List ℕ
typed_text t = if all_scalar t then encode (unify_newlines t) else []

-- The bytes of what is typed.
unfoldable pub typed_bytes : List Input → List ℕ
unfolding typed_text
typed_bytes [] = []
typed_bytes (write_stdin t ∷ inputs) = typed_text t ++ typed_bytes inputs
typed_bytes (resize_terminal c r ∷ inputs) = typed_bytes inputs
typed_bytes (send_signal sig ∷ inputs) = typed_bytes inputs

module _ (posix : Bool) (s : System) (c : Child s.World) (decode : List ℕ → Text) where
  -- What a call leaves; its result is dropped, and an exception of it is logged.
  unfoldable pub deliver : Input → Live × s.World → Live × s.World
  unfolding Sandbox.write_stdin Sandbox.resize_terminal Sandbox.send_signal
  deliver (write_stdin t) st = (Sandbox.write_stdin posix s c decode (text t) st).1
  deliver (resize_terminal cols rows) st = (Sandbox.resize_terminal posix s c cols rows st).1
  deliver (send_signal sig) st = (Sandbox.send_signal posix s c sig st).1

  unfoldable pub deliver_all : List Input → Live × s.World → Live × s.World
  unfolding deliver
  deliver_all [] st = st
  deliver_all (i ∷ inputs) st = deliver_all inputs (deliver i st)

all_scalar-unify_newlines : (t : Text) → all_scalar (unify_newlines t) ≡ all_scalar t
unfolding unify_newlines
all_scalar-unify_newlines [] = refl
all_scalar-unify_newlines (c ∷ []) = ground arith
all_scalar-unify_newlines (c ∷ (d ∷ t)) = ground (arith, all_scalar-unify_newlines (d ∷ t))

abbrev pub piped : Live
piped = record { active_pty = none; active_process = some true }

abbrev bytes_of : Result Raised (List ℕ) → List ℕ
bytes_of (err e) = []
bytes_of (ok b) = b

bytes_of-encode_strict : (t : Text) → bytes_of (encode_strict (unify_newlines t)) ≡ typed_text t
unfolding typed_text
bytes_of-encode_strict t = elim (Bool-cases (all_scalar t)) [
  | inl y ↦ simp (all_scalar-unify_newlines t, y) refl
  | inr n ↦ simp (all_scalar-unify_newlines t, n) refl
]

bytes_of-pipe_bytes :
    (decode : List ℕ → Text) (t : Text) → bytes_of (pipe_bytes decode (text t)) ≡ typed_text t
unfolding pipe_bytes
bytes_of-pipe_bytes decode t =
    ap (λ u. bytes_of (encode_strict u)) (replace_cr-replace_crlf t) ∙ bytes_of-encode_strict t

module _ (posix : Bool) (s : System) (c : Child s.World) (laws : ChildLaws c)
    (takes : (b : List ℕ) (w : s.World) → (c.write b w).0 ≡ ok tt) (decode : List ℕ → Text) where
  write-received :
      (r : Result Raised (List ℕ)) (w : s.World)
      → ((with_bytes r (λ b. attempt done_anyway (c.write b)) (piped, w)).1.0 ≡ piped)
        × (c.received (with_bytes r (λ b. attempt done_anyway (c.write b)) (piped, w)).1.1
            ≡ c.received w ++ bytes_of r)
  write-received (err e) w = (refl, sym (append-nil (c.received w)))
  write-received (ok b) w = (refl, laws.received-write b w (takes b w))

  pub deliver_all-received :
      (inputs : List Input) (w : s.World)
      → ((deliver_all posix s c decode inputs (piped, w)).0 ≡ piped)
        × (c.received (deliver_all posix s c decode inputs (piped, w)).1
            ≡ c.received w ++ typed_bytes inputs)
  unfolding deliver_all typed_bytes
  deliver_all-received [] w = (refl, sym (append-nil (c.received w)))
  deliver_all-received (write_stdin t ∷ inputs) w =
      let r = pipe_bytes decode (text t) in
      let st = (with_bytes r (λ b. attempt done_anyway (c.write b)) (piped, w)).1 in
      let one = write-received r w in
      let ih = deliver_all-received inputs st.1 in
      let same : deliver_all posix s c decode inputs st
          ≡ deliver_all posix s c decode inputs (piped, st.1) =
        ap (λ l. deliver_all posix s c decode inputs (l, st.1)) one.0 in
      (
        ap (λ z. z.0) same ∙ ih.0,
        ap (λ z. c.received z.1) same
            ∙ ih.1
            ∙ ap (λ z. z ++ typed_bytes inputs)
                (one.1 ∙ ap (λ b. c.received w ++ b) (bytes_of-pipe_bytes decode t))
            ∙ append_assoc (c.received w) (typed_text t) (typed_bytes inputs),
      )
  deliver_all-received (resize_terminal cols rows ∷ inputs) w = deliver_all-received inputs w
  deliver_all-received (send_signal sig ∷ inputs) w =
      let ih = deliver_all-received inputs (c.signal sig w).1 in
      (ih.0, ih.1 ∙ ap (λ z. z ++ typed_bytes inputs) (laws.received-signal sig w))
