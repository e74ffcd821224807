-- ===== src/Sandbox/MicroVm/Agrees.antt =====
-- What `execute` makes of a program that fails, against what the stream reports of it.
use mathlib.Core.List.{append_assoc}
use secure_remote_code_execu.Prelude.{◌≡◌, refl, ap, sym, ◌∙◌, false, some, List, [], ◌∷◌, ◌++◌, ok}
use secure_remote_code_execu.Prelude.Texts.{Text, codes, contains, show_nat}
use secure_remote_code_execu.Prelude.Int.{ℤ, pos, is_zero}
use secure_remote_code_execu.Sandbox.Models.{
  completed, runtime_error, ExecutionRequest, ExecutionResult, stdout, stderr, status, complete,
  StreamChunk,
}
use secure_remote_code_execu.Sandbox.Polyglot.Strategy.{Strategy}
use secure_remote_code_execu.Sandbox.Process.{input_of}
use secure_remote_code_execu.Sandbox.Process.Stream.{chunk_of}
use secure_remote_code_execu.Sandbox.MicroVm.{
  Guest, guest_exited, solution_name, outcome_json, initial_notice, unless_empty, guest_complete,
  guest_chunks, microvm_stream_execute, Telemetry, note_all, note_status, telemetry_result,
  telemetry_of, new_telemetry, microvm_execute,
}

-- A text that says nothing of how the program ended.
abbrev pub IsPlain : Text → Type 0
IsPlain t =
    (contains (codes "COMPILE_ERROR") t ≡ false)
    × (contains (codes "TIME_LIMIT_EXCEEDED") t ≡ false)
    × (contains (codes "MEMORY_LIMIT_EXCEEDED") t ≡ false)

module _ (now : Text) (g : Guest) (r : ExecutionRequest) where
  -- The output and the final chunk leave the status alone.
  exited-outcome :
      (code : ℤ) (out_text err_text : Text) (m : Telemetry)
      → (note_all now (guest_chunks now g r (guest_exited code out_text err_text)) m).outcome
        ≡ m.outcome
  exited-outcome code [] [] m = refl
  exited-outcome code [] (d ∷ err_text) m = refl
  exited-outcome code (c ∷ out_text) [] m = refl
  exited-outcome code (c ∷ out_text) (d ∷ err_text) m = refl

  note_status-plain : (t : Text) (m : Telemetry) → IsPlain t → note_status now t m ≡ m
  note_status-plain t m h = simp (h.0, h.1, h.2) refl

  guest_complete-failed :
      (code : ℤ)
      → is_zero code ≡ false
      → guest_complete now g r code
        ≡ chunk_of now complete (
            outcome_json runtime_error code
            ++ (codes ", \"duration_ms\": " ++ (show_nat g.elapsed_ms ++ codes "}")))
  guest_complete-failed code h = rw (h) refl

  -- An interpreted program that ends with an exit code other than 0, in a guest whose first message has
  -- none of the three words that `execute` looks for: the stream reports RUNTIME_ERROR with the code,
  -- and `execute` returns COMPLETED with the exit code 0.
  pub microvm_execute-failed :
      (s : Strategy) (code : ℤ) (out_text err_text : Text)
      → s.is_compiled ≡ false
      → g.run
          (s.get_execution_command (g.in_directory (solution_name s)))
          (input_of r.stdin_data)
          r.timeout_ms
        ≡ guest_exited code out_text err_text
      → is_zero code ≡ false
      → IsPlain (initial_notice g)
      → (front : List StreamChunk) × (x : ExecutionResult) × (microvm_stream_execute now g r (ok s)
          ≡ ok (
              front
              ++ chunk_of now complete (
                  outcome_json runtime_error code
                  ++ (codes ", \"duration_ms\": " ++ (show_nat g.elapsed_ms ++ codes "}")))
                ∷ []))
        × (microvm_execute now g r (ok s) ≡ ok x)
        × (x.status ≡ completed)
        × (x.exit_code ≡ some (pos 0))
  unfolding microvm_stream_execute microvm_execute
  microvm_execute-failed s code out_text err_text interpreted run failed plain =
      let chunks : List StreamChunk =
        chunk_of now status (initial_notice g)
        ∷ guest_chunks now g r (guest_exited code out_text err_text) in
      let stream : microvm_stream_execute now g r (ok s) ≡ ok chunks =
        simp (interpreted, run) refl in
      (
        chunk_of now status (initial_notice g)
            ∷ (unless_empty now stdout out_text ++ unless_empty now stderr err_text),
        telemetry_result now g.elapsed_ms (note_all now chunks (new_telemetry now r)),
        stream
            ∙ ap
                (λ c. ok (
                  chunk_of now status (initial_notice g)
                  ∷ (unless_empty now stdout out_text
                      ++ (unless_empty now stderr err_text ++ c ∷ []))))
                (guest_complete-failed code failed)
            ∙ ap (λ l. ok (chunk_of now status (initial_notice g) ∷ l))
                (sym (
                  append_assoc (unless_empty now stdout out_text) (unless_empty now stderr err_text)
                    _)),
        ap (telemetry_of now g r) stream,
        ap
              (λ m.
                (note_all now (guest_chunks now g r (guest_exited code out_text err_text))
                  m).outcome)
              (note_status-plain (initial_notice g) (new_telemetry now r) plain)
            ∙ exited-outcome code out_text err_text (new_telemetry now r),
        refl,
      )
