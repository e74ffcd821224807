-- ===== src/Sandbox/Process/AtOnce.antt =====
-- The chunks that `execute` gives its consumer.
use mathlib.Core.List.{append-nil}
use secure_remote_code_execu.Prelude.{◌≡◌, refl, List, [], ◌∷◌, All}
use secure_remote_code_execu.Prelude.Texts.{Text}
use secure_remote_code_execu.Utf8.Laws.{IsScalar}
use secure_remote_code_execu.Sandbox.StreamConsumer.{StreamConsumer}
use secure_remote_code_execu.Sandbox.StreamConsumer.Holds.{
  Chunk, out, err, IsText, consume, consume_all, written_out, written_err,
}
use secure_remote_code_execu.Sandbox.Process.{consume_output}

-- The chunks that `execute` hands to its consumer.
abbrev pub at_once : Text → Text → List Chunk
at_once [] [] = []
at_once [] (c ∷ e) = err (c ∷ e) ∷ []
at_once (c ∷ o) [] = out (c ∷ o) ∷ []
at_once (c ∷ o) (d ∷ e) = out (c ∷ o) ∷ (err (d ∷ e) ∷ [])

pub written_out-at_once : (o e : Text) → written_out (at_once o e) ≡ o
written_out-at_once [] [] = refl
written_out-at_once [] (c ∷ e) = refl
written_out-at_once (c ∷ o) [] = append-nil (c ∷ o)
written_out-at_once (c ∷ o) (d ∷ e) = append-nil (c ∷ o)

pub written_err-at_once : (o e : Text) → written_err (at_once o e) ≡ e
written_err-at_once [] [] = refl
written_err-at_once [] (c ∷ e) = append-nil (c ∷ e)
written_err-at_once (c ∷ o) [] = refl
written_err-at_once (c ∷ o) (d ∷ e) = append-nil (d ∷ e)

pub at_once-IsText : (o e : Text) → All IsScalar o → All IsScalar e → All IsText (at_once o e)
at_once-IsText [] [] h k = tt
at_once-IsText [] (c ∷ e) h k = (k, tt)
at_once-IsText (c ∷ o) [] h k = (h, tt)
at_once-IsText (c ∷ o) (d ∷ e) h k = (h, (k, tt))

pub consume_output-at_once :
    (now o e : Text) (c : StreamConsumer)
    → consume_output now o e c ≡ consume_all now (at_once o e) c
unfolding consume_output consume_all consume
consume_output-at_once now [] [] c = refl
consume_output-at_once now [] (x ∷ e) c = refl
consume_output-at_once now (x ∷ o) [] c = refl
consume_output-at_once now (x ∷ o) (y ∷ e) c = refl
