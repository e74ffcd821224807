-- ===== src/Tasks/Execution/Agrees.antt =====
-- `_stream_and_collect` over the process sandbox, against `ProcessSandbox.execute`.
use mathlib.Core.List.{append-nil}
use secure_remote_code_execu.Prelude.{
  map, ℕ, ◌≤◌, ◌≡◌, ◌||◌, ◌==◌, list_eq, nat_eq, refl, ap, sym, ◌∙◌, Bool, false, not, Option, none,
  some, List, [], ◌∷◌, ◌++◌, drop, All, Result, ok, err, arith,
}
use secure_remote_code_execu.Prelude.Texts.{Text, codes, join}
use secure_remote_code_execu.Prelude.Int.{ℤ}
use secure_remote_code_execu.Redis.{Redis, RedisLaws}
use secure_remote_code_execu.Sandbox.Models.{
  ExecutionRequest, ExecutionResult, StreamChunk, status, complete, status_value,
}
use secure_remote_code_execu.Sandbox.StreamConsumer.{new_consumer}
use secure_remote_code_execu.Sandbox.StreamConsumer.Holds.{Chunk, IsText, written_out, written_err}
use secure_remote_code_execu.Sandbox.StreamConsumer.Cap.{written}
use secure_remote_code_execu.Sandbox.Polyglot.Strategy.{Strategy}
use secure_remote_code_execu.Sandbox.Process.{
  Host, finished, source_name, input_of, consume_output, report, after_run, run_phase,
  execute_phases, execute_with, execute,
}
use secure_remote_code_execu.Sandbox.Process.Stream.{
  StreamHost, Read, closed, started, Report, run_report, chunk_of, pump, final_status,
  session_chunks, stream_run, stream_phases, stream_with, stream_execute,
}
use secure_remote_code_execu.Sandbox.Process.Stream.Status.{
  encode_read, stdout_bytes, stderr_bytes, decoded_reads, final_status-consume_output,
}
use secure_remote_code_execu.Utf8.{decode_replace}
use secure_remote_code_execu.Streaming.Json.{FrameCodec}
use secure_remote_code_execu.Streaming.Buffer.{buffer_key, get_buffered}
use secure_remote_code_execu.Streaming.Multiplexer.{
  StreamMultiplexer, new_multiplexer, publish_chunk, publish_all,
}
use secure_remote_code_execu.Streaming.Multiplexer.Gapless.{number, get_buffered-publish_all}
use secure_remote_code_execu.Tasks.Reports.{ReportCodec}
use secure_remote_code_execu.Tasks.Execution.{
  Streamed, Collected, nothing_collected, accumulate, TaskResult, task_result, error_chunk, handle,
  stream_loop, stream_and_collect,
}
use secure_remote_code_execu.Tasks.Execution.Collects.{
  collect, collect-append, whole, stream_loop-publish_all, pump-whole, collect-whole-stdout,
  collect-whole-stderr,
}

-- A generator as the loop goes through it.
abbrev pub streamed_of : Result Text (List StreamChunk) → Streamed
streamed_of (ok chunks) = record { chunks = chunks; raised = none }
streamed_of (err exc) = record { chunks = []; raised = some exc }

-- All that is published: the chunks, and the error chunk of an exception.
abbrev pub all_chunks : Text → Streamed → List StreamChunk
all_chunks now s = s.chunks ++ elim s.raised [ none ↦ [] | some exc ↦ error_chunk now exc ∷ [] ]

-- The same run of an interpreted program, seen by `stream_execute` and by `execute`: it writes the
-- reads, which `execute` decodes all at once, and ends with the exit code.
pub record SameRun (stream_host : StreamHost) (host : Host) (r : ExecutionRequest) (s : Strategy)
    (reads : List Read) (code : ℤ) : Type 0 where
  pub stream_directory : stream_host.directory ≡ none
  pub interpreted : s.is_compiled ≡ false
  pub stream_prepared : stream_host.prepare ≡ none
  pub prepared : host.prepare ≡ none
  pub session_is :
      stream_host.session
        (s.get_execution_command (stream_host.in_directory (source_name s)))
        (input_of r.stdin_data)
        r.timeout_ms
      ≡ started reads (closed (some code))
  pub run_is :
      host.run
        (s.get_execution_command (host.in_directory (source_name s)))
        (input_of r.stdin_data)
        r.timeout_ms
      ≡ finished code (decode_replace (stdout_bytes reads)) (decode_replace (stderr_bytes reads))

module _ (now : Text) (codec : ReportCodec) (stream_host : StreamHost) (r : ExecutionRequest)
    (s : Strategy) where
  -- The chunks of an interpreted program that ends by itself.
  stream_execute-closed :
      (host : Host) (reads : List Read) (code : ℤ)
      → SameRun stream_host host r s reads code
      → stream_execute now codec.dumps stream_host r (ok s)
        ≡ ok (
            chunk_of now status
              (codes "Initializing " ++ (s.display_name ++ codes " execution runtime..."))
            ∷ ((pump now reads (new_consumer r.max_output_bytes)).0
                ++ chunk_of now complete (
                    codec.dumps (
                      run_report
                        (final_status now r reads (closed (some code)))
                        (some code)
                        stream_host.elapsed_ms))
                  ∷ []))
  unfolding stream_execute stream_with stream_phases stream_run session_chunks
  stream_execute-closed host reads code same =
      simp (same.stream_directory)
        (simp (same.stream_prepared) (simp (same.interpreted) (simp (same.session_is) refl)))

  -- What is collected of them.
  collected : List Read → ℤ → Collected
  collected reads code =
      accumulate codec.loads complete
        (codec.dumps (
          run_report (final_status now r reads (closed (some code))) (some code)
            stream_host.elapsed_ms))
        (collect codec.loads (pump now reads (new_consumer r.max_output_bytes)).0 nothing_collected)

-- What a task runs: a language other than Python forces the process sandbox.
abbrev pub task_run :
    (Text → Text) → (Bool → ExecutionRequest → Streamed) → ExecutionRequest → Bool → Streamed
task_run lower run r force = run (force || not (lower r.language == codes "python")) r

module _ (redis : Redis) (frames : FrameCodec) where
  publish_all-append :
      (xs ys : List StreamChunk) (m : StreamMultiplexer × redis.Db)
      → publish_all redis frames (xs ++ ys) m
        ≡ publish_all redis frames ys (publish_all redis frames xs m)
  unfolding publish_all
  publish_all-append [] ys m = refl
  publish_all-append (x ∷ xs) ys m = publish_all-append xs ys (publish_chunk redis frames x m).1

  handle-publish_all :
      (loads : Text → Option Report) (now : Text) (cs : List StreamChunk) (raised : Option Text)
      (m : StreamMultiplexer × redis.Db) (c : Collected)
      → (handle redis frames loads now raised (stream_loop redis frames loads cs (m, c))).0
        ≡ publish_all redis frames (all_chunks now (record { chunks = cs; raised = raised })) m
  unfolding handle publish_all
  handle-publish_all loads now cs none m c =
      ap (λ x. x.0) (stream_loop-publish_all redis frames loads cs m c)
      ∙ ap (λ l. publish_all redis frames l m) (sym (append-nil cs))
  handle-publish_all loads now cs (some exc) m c =
      ap (λ x. (publish_chunk redis frames (error_chunk now exc) x.0).1)
        (stream_loop-publish_all redis frames loads cs m c)
      ∙ sym (publish_all-append cs (error_chunk now exc ∷ []) m)

  -- For any sandbox, and a submission whose buffer is empty: after the task has run, reading the
  -- buffer at any index gives the frames of the chunks that the sandbox yielded from there on, numbered
  -- without a gap; if the sandbox raised, an error frame with the exception comes last.
  pub stream_and_collect-get_buffered :
      (laws : RedisLaws redis) (loads : Text → Option Report) (now : Text) (lower : Text → Text)
      (run : Bool → ExecutionRequest → Streamed) (id : Text) (r : ExecutionRequest) (force : Bool)
      (k : ℕ) (db : redis.Db)
      → redis.lrange (buffer_key id) 0 db ≡ []
      → get_buffered redis frames id k
          (stream_and_collect redis frames loads now lower run id r force db).1
        ≡ some (number id k (drop k (all_chunks now (task_run lower run r force))))
  unfolding stream_and_collect
  stream_and_collect-get_buffered laws loads now lower run id r force k db empty =
      ap (λ x. get_buffered redis frames id k x.1)
        (handle-publish_all loads now (task_run lower run r force).chunks
          (task_run lower run r force).raised (new_multiplexer id, db) nothing_collected)
      ∙ get_buffered-publish_all redis laws frames id (all_chunks now (task_run lower run r force))
          k db empty

module _ (redis : Redis) (frames : FrameCodec) (codec : ReportCodec) (now : Text)
    (lower : Text → Text) (run : Bool → ExecutionRequest → Streamed) (id : Text)
    (stream_host : StreamHost) (host : Host) (r : ExecutionRequest) (s : Strategy)
    (chunks : List Chunk) (code : ℤ) (force : Bool) (db : redis.Db)
    (is_process : task_run lower run r force
      ≡ streamed_of (stream_execute now codec.dumps stream_host r (ok s)))
    (same : SameRun stream_host host r s (map encode_read chunks) code)
    (texts : All IsText chunks) where
  abbrev reads : List Read
  reads = map encode_read chunks

  abbrev result : TaskResult
  result = (stream_and_collect redis frames codec.loads now lower run id r force db).0

  result-collected : result ≡ task_result id (collected now codec stream_host r s reads code)
  unfolding stream_and_collect handle collected accumulate
  result-collected =
      ap
        (λ z.
          task_result id
            (handle redis frames codec.loads now z.raised (
              stream_loop redis frames codec.loads z.chunks
                ((new_multiplexer id, db), nothing_collected))).1)
        (is_process
          ∙ ap streamed_of (stream_execute-closed now codec stream_host r s host reads code same))
      ∙ ap (λ x. task_result id x.1)
          (stream_loop-publish_all redis frames codec.loads _ (new_multiplexer id, db)
            nothing_collected)
      ∙ ap (task_result id) (
          collect-append codec.loads (pump now reads (new_consumer r.max_output_bytes)).0 _
            nothing_collected)

  executed :
      execute now host r (ok s)
      ≡ ok (
          report host r false code (
            consume_output now
              (decode_replace (stdout_bytes reads))
              (decode_replace (stderr_bytes reads))
              (new_consumer r.max_output_bytes)))
  unfolding execute execute_with execute_phases run_phase after_run
  executed = simp (same.prepared) (simp (same.interpreted) (simp (same.run_is) refl))

  final : Report
  final =
      run_report (final_status now r reads (closed (some code))) (some code) stream_host.elapsed_ms

  payload : (collected now codec stream_host r s reads code).final_payload ≡ final
  unfolding collected accumulate final
  payload =
      rw
        (codec.loads-dumps (
          run_report (final_status now r reads (closed (some code))) (some code)
            stream_host.elapsed_ms))
        refl

  -- A task that runs an interpreted program in the process sandbox, whose output is text and which
  -- ends by itself: however its output is cut into reads, as long as no read ends within a character,
  -- the task returns the status and the exit code that `execute` returns for the same run.
  pub stream_and_collect-execute :
      (x : ExecutionResult) × (execute now host r (ok s) ≡ ok x)
      × (result.outcome ≡ status_value x.status)
      × (result.exit_code ≡ x.exit_code)
  unfolding report final
  stream_and_collect-execute = (
    _,
    executed,
    ap (λ t. t.outcome) result-collected
        ∙ ap (λ p. p.outcome) payload
        ∙ ap status_value (final_status-consume_output now r chunks (closed (some code)) texts),
    ap (λ t. t.exit_code) result-collected ∙ ap (λ p. p.exit_code) payload,
  )

  module _ (fits : written chunks ≤ r.max_output_bytes) where
    whole-reads : (pump now reads (new_consumer r.max_output_bytes)).0 ≡ map (whole now) chunks
    unfolding pump
    whole-reads =
        simp (decoded_reads chunks texts)
          (pump-whole now chunks (new_consumer r.max_output_bytes) refl (omega (arith, fits)))

    -- A task that runs an interpreted program in the process sandbox, whose output is text and which
    -- ends by itself, when it wrote no more bytes than the cap and no read ends within a character: the
    -- task returns the two outputs that the program wrote.
    pub stream_and_collect-written :
        (result.stdout_text ≡ written_out chunks) × (result.stderr_text ≡ written_err chunks)
    unfolding collected accumulate
    stream_and_collect-written = (
      ap (λ t. t.stdout_text) result-collected
          ∙ ap (λ l. join [] (collect codec.loads l nothing_collected).stdout_parts) whole-reads
          ∙ collect-whole-stdout now codec.loads chunks nothing_collected,
      ap (λ t. t.stderr_text) result-collected
          ∙ ap (λ l. join [] (collect codec.loads l nothing_collected).stderr_parts) whole-reads
          ∙ collect-whole-stderr now codec.loads chunks nothing_collected,
    )
