-- ===== src/Tasks/Inputs/Typed.antt =====
-- From the browser to the sandbox: what `upstream_pump` publishes and the worker takes up.
use secure_remote_code_execu.Prelude.{
  ℕ, ◌≡◌, refl, ap, ◌∙◌, true, false, Bool-cases, inl, inr, Option, none, some, List, [], ◌∷◌,
  list_eq, nat_eq, arith,
}
use secure_remote_code_execu.Prelude.Texts.{Text, codes, is_truthy}
use secure_remote_code_execu.Streaming.Replay.{
  ClientText, object, undecodable, other, is_input_type, forward_text, upstream_pump,
}
use secure_remote_code_execu.Tasks.Inputs.{
  InputFrame, Input, write_stdin, input_of_type, input_of_frame, input_of_message, cons_input,
  consume_upstream_inputs,
}

-- The gateway and the worker read the same texts: `json.loads` of both gives the same type, and reads
-- the frame that the gateway wraps a text into.
pub record InputCodec (parse : Text → ClientText) (wrap_stdin : Text → Text)
    (loads : Text → Option InputFrame) : Type 0 where
  pub type_of :
      (t : Text) (k : Option Text)
      → parse t ≡ object k
      → (f : InputFrame) × (loads t ≡ some f) × (f.frame_type ≡ k)
  pub wrapped :
      (t : Text)
      → (f : InputFrame) × (loads (wrap_stdin t) ≡ some f)
        × (f.frame_type ≡ some (codes "stdin"))
        × (f.data_text ≡ t)
  pub wrap_stdin-is_truthy : (t : Text) → is_truthy (wrap_stdin t) ≡ true

module _ (parse : Text → ClientText) (wrap_stdin : Text → Text) (loads : Text → Option InputFrame)
    (resolve : Text → ℕ) where
  abbrev pub typed_one : Text → ClientText → List Input → List Input
  typed_one t (object k) later = cons_input (input_of_frame resolve (loads t)) later
  typed_one t undecodable later = write_stdin t ∷ later
  typed_one t other later = []

  -- What the texts of a client ask for: a text that is no JSON is typed as it is, a frame means what
  -- it says, and any other text ends the connection.
  abbrev pub typed : List Text → List Input
  typed [] = []
  typed ([] ∷ texts) = typed texts
  typed ((c ∷ t) ∷ texts) = typed_one (c ∷ t) (parse (c ∷ t)) (typed texts)

  other_type :
      (k : Option Text) (f : InputFrame)
      → is_input_type parse wrap_stdin k ≡ false
      → input_of_type resolve k f ≡ none
  other_type none f h = refl
  other_type (some t) f h = ground (arith, h)

  module _ (codec : InputCodec parse wrap_stdin loads) where
    wrapped_input :
        (t : Text) → input_of_message resolve loads (wrap_stdin t) ≡ some (write_stdin t)
    wrapped_input t =
        let w = codec.wrapped t in
        simp (codec.wrap_stdin-is_truthy t, w.1)
          (ap (λ k. input_of_type resolve k w.0) w.2 ∙ ap (λ x. some (write_stdin x)) w.3)

    not_forwarded :
        (t : Text) (k : Option Text)
        → parse t ≡ object k
        → is_input_type parse wrap_stdin k ≡ false
        → input_of_frame resolve (loads t) ≡ none
    not_forwarded t k e h =
        let w = codec.type_of t k e in
        simp (w.1) (ap (λ x. input_of_type resolve x w.0) w.2 ∙ other_type k w.0 h)

    step :
        (raw : Text) (rest : List Text) (later : List Input) (p : ClientText)
        → parse raw ≡ p
        → consume_upstream_inputs resolve loads rest ≡ later
        → is_truthy raw ≡ true
        → consume_upstream_inputs resolve loads (forward_text parse wrap_stdin raw p rest)
          ≡ typed_one raw p later
    unfolding consume_upstream_inputs
    step raw rest later (object k) e h y = elim (Bool-cases (is_input_type parse wrap_stdin k)) [
      | inl i ↦ simp (i, y) (ap (cons_input (input_of_frame resolve (loads raw))) h)
      | inr n ↦ simp (n, not_forwarded raw k e n) h
    ]
    step raw rest later undecodable e h y =
        ap (λ i. cons_input i (consume_upstream_inputs resolve loads rest)) (wrapped_input raw)
        ∙ ap (λ l. write_stdin raw ∷ l) h
    step raw rest later other e h y = refl

    -- Whatever a client sends to a running program: what the worker then calls of the sandbox is what
    -- the texts ask for, each once and in order, up to the first that ends the connection.
    pub consume_upstream_inputs-upstream_pump :
        (texts : List Text)
        → consume_upstream_inputs resolve loads (upstream_pump parse wrap_stdin texts) ≡ typed texts
    unfolding upstream_pump consume_upstream_inputs
    consume_upstream_inputs-upstream_pump [] = refl
    consume_upstream_inputs-upstream_pump ([] ∷ texts) = consume_upstream_inputs-upstream_pump texts
    consume_upstream_inputs-upstream_pump ((c ∷ t) ∷ texts) =
        step (c ∷ t) (upstream_pump parse wrap_stdin texts) (typed texts) (parse (c ∷ t)) refl
          (consume_upstream_inputs-upstream_pump texts) refl
