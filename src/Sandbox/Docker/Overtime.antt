-- ===== src/Sandbox/Docker/Overtime.antt =====
-- What `execute` of the Docker sandbox makes of a container that runs until the deadline.
use mathlib.Core.List.{append_assoc}
use secure_remote_code_execu.Prelude.{
  ◌≡◌, ◌⊎◌, refl, ap, sym, ◌∙◌, true, Bool-cases, inl, inr, Option, none, List, [], ◌∷◌, ◌++◌, ◌==◌,
  list_eq, nat_eq, Result, ok,
}
use secure_remote_code_execu.Prelude.Texts.{Text, codes}
use secure_remote_code_execu.Sandbox.Models.{
  completed, output_limit_exceeded, time_limit_exceeded, ExecutionRequest, ExecutionResult, status,
  complete, StreamChunk,
}
use secure_remote_code_execu.Sandbox.StreamConsumer.{StreamConsumer, new_consumer}
use secure_remote_code_execu.Sandbox.Process.Stream.{Report, chunk_of}
use secure_remote_code_execu.Sandbox.Docker.Container.{
  State, Engine, container_config, start_from, stdin_payload, docker_report,
}
use secure_remote_code_execu.Sandbox.Docker.{
  watch, drain_rest, timeout_notice, Yielded, yield_first, container_chunks, isolated_chunks,
  docker_stream_execute, absorb, accumulated, accumulated_of, docker_execute,
}

module _ (now : Text) (dumps : Report → Text) (e : Engine) (profile : Option Text)
    (r : ExecutionRequest) where
  -- The report of a container that ran until the deadline.
  abbrev pub late_report : State → StreamChunk
  late_report s = chunk_of now complete (dumps (docker_report time_limit_exceeded s e.elapsed_ms))

  container_chunks-overtime :
      (s : State)
      → (watch now
          (e.session (stdin_payload r.stdin_data)).polls
          (new_consumer r.max_output_bytes)).2
        ≡ true
      → e.inspect ≡ ok s
      → (before : List StreamChunk) × (container_chunks now dumps e r
          ≡ (before ++ late_report s ∷ [], none))
  unfolding container_chunks
  container_chunks-overtime s late i =
      let session = e.session (stdin_payload r.stdin_data) in
      let watched = watch now session.polls (new_consumer r.max_output_bytes) in
      let rest = drain_rest now session.remaining watched.1 in
      (
        watched.0 ++ (rest.0 ++ timeout_notice now dumps e r true),
        simp (late, i)
            (ap (λ l. (l, none))
              (sym (
                append_assoc watched.0 (rest.0 ++ timeout_notice now dumps e r true)
                  (late_report s ∷ [])
                ∙ ap (λ l. watched.0 ++ l)
                    (append_assoc rest.0 (timeout_notice now dumps e r true)
                      (late_report s ∷ []))))),
      )

  accumulated_status :
      (c : StreamConsumer)
      → ((accumulated c).status ≡ completed) ⊎ ((accumulated c).status ≡ output_limit_exceeded)
  accumulated_status c = elim (Bool-cases c.limit_exceeded) [
    | inl t ↦ inr (simp (t) refl)
    | inr f ↦ inl (simp (f) refl)
  ]

  -- A Python program whose container starts, and which runs until the deadline ends the loop, whatever
  -- it wrote: its stream ends with the report TIME_LIMIT_EXCEEDED, and `execute` returns the status
  -- COMPLETED or OUTPUT_LIMIT_EXCEEDED for it, with no exit code and a time of 0.
  pub docker_execute-overtime :
      (process : Result Text ExecutionResult) (fallback : Yielded) (s : State)
      → (e.lower r.language == codes "python") ≡ true
      → e.create (container_config profile r) ≡ none
      → e.attach_socket ≡ none
      → start_from e 0 3 ≡ none
      → (watch now
          (e.session (stdin_payload r.stdin_data)).polls
          (new_consumer r.max_output_bytes)).2
        ≡ true
      → e.inspect ≡ ok s
      → (before : List StreamChunk) × (x : ExecutionResult) × (docker_stream_execute now dumps e
            profile fallback r
          ≡ (before ++ late_report s ∷ [], none))
        × (docker_execute now dumps e profile process fallback r ≡ ok x)
        × ((x.status ≡ completed) ⊎ (x.status ≡ output_limit_exceeded))
        × (x.exit_code ≡ none)
        × (x.execution_time_ms ≡ 0)
  unfolding docker_stream_execute docker_execute isolated_chunks
  docker_execute-overtime process fallback s python c a st late i =
      let first = chunk_of now status (codes "Initializing isolated sandbox container...") in
      let run = container_chunks-overtime s late i in
      let all_chunks : List StreamChunk = first ∷ (run.0 ++ late_report s ∷ []) in
      let last : StreamConsumer = absorb now all_chunks (new_consumer r.max_output_bytes) in
      let streamed : docker_stream_execute now dumps e profile fallback r ≡ (all_chunks, none) =
        simp (python, c, a, st) (ap (yield_first (first ∷ [])) run.1) in
      let made : docker_execute now dumps e profile process fallback r
          ≡ accumulated_of now r (docker_stream_execute now dumps e profile fallback r) =
        simp (python) refl in
      (
        first ∷ run.0,
        accumulated last,
        streamed,
        made ∙ ap (accumulated_of now r) streamed,
        accumulated_status last,
        refl,
        refl,
      )
