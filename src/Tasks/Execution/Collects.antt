-- ===== src/Tasks/Execution/Collects.antt =====
-- The loop of `_stream_and_collect`: what it publishes and what it collects.
use mathlib.Core.List.{append_assoc, append-nil}
use secure_remote_code_execu.Prelude.{
  ◌+◌, ◌≤◌, ◌≡◌, refl, ap, sym, ◌∙◌, false, Option, some, List, [], ◌∷◌, ◌++◌, map, ltb, arith,
}
use secure_remote_code_execu.Prelude.Texts.{Text, join}
use secure_remote_code_execu.Redis.{Redis}
use secure_remote_code_execu.Sandbox.Models.{StreamChunk, stdout, stderr}
use secure_remote_code_execu.Sandbox.StreamConsumer.{
  StreamConsumer, byte_size, consume_stdout, consume_stderr,
}
use secure_remote_code_execu.Sandbox.StreamConsumer.Holds.{
  Chunk, out, err, written_out, written_err, join-snoc, byte_size-append,
}
use secure_remote_code_execu.Sandbox.StreamConsumer.Cap.{written}
use secure_remote_code_execu.Sandbox.Process.Stream.{Report, chunk_of, pump_texts, cons_some}
use secure_remote_code_execu.Streaming.Json.{FrameCodec}
use secure_remote_code_execu.Streaming.Multiplexer.{StreamMultiplexer, publish_chunk, publish_all}
use secure_remote_code_execu.Tasks.Execution.{Collected, accumulate, stream_loop}

module _ (loads : Text → Option Report) where
  abbrev pub collect : List StreamChunk → Collected → Collected
  collect [] c = c
  collect (k ∷ ks) c = collect ks (accumulate loads k.event k.payload c)

  pub collect-append :
      (xs ys : List StreamChunk) (c : Collected) → collect (xs ++ ys) c ≡ collect ys (collect xs c)
  collect-append [] ys c = refl
  collect-append (x ∷ xs) ys c = collect-append xs ys (accumulate loads x.event x.payload c)

-- The loop publishes every chunk, in order, and collects from every chunk.
pub stream_loop-publish_all :
    (redis : Redis) (codec : FrameCodec) (loads : Text → Option Report) (chunks : List StreamChunk)
    (m : StreamMultiplexer × redis.Db) (c : Collected)
    → stream_loop redis codec loads chunks (m, c)
      ≡ (publish_all redis codec chunks m, collect loads chunks c)
unfolding stream_loop publish_all
stream_loop-publish_all redis codec loads [] m c = refl
stream_loop-publish_all redis codec loads (k ∷ ks) m c =
    stream_loop-publish_all redis codec loads ks (publish_chunk redis codec k m).1
      (accumulate loads k.event k.payload c)

module _ (now : Text) where
  -- A read that is passed on as it is.
  abbrev pub whole : Chunk → StreamChunk
  whole (out t) = chunk_of now stdout t
  whole (err t) = chunk_of now stderr t

  consume_stdout-fits :
      (t : Text) (c : StreamConsumer)
      → c.limit_exceeded ≡ false
      → c.total_bytes + byte_size t ≤ c.max_bytes
      → consume_stdout now t c ≡ (
        some (chunk_of now stdout t),
        record c {
          total_bytes = c.total_bytes + byte_size t;
          stdout_buffer = c.stdout_buffer ++ t ∷ [];
        },
      )
  unfolding consume_stdout
  consume_stdout-fits t c h le =
      let over : ltb c.max_bytes (c.total_bytes + byte_size t) ≡ false = ground arith in
      rw (h, over) refl

  consume_stderr-fits :
      (t : Text) (c : StreamConsumer)
      → c.limit_exceeded ≡ false
      → c.total_bytes + byte_size t ≤ c.max_bytes
      → consume_stderr now t c ≡ (
        some (chunk_of now stderr t),
        record c {
          total_bytes = c.total_bytes + byte_size t;
          stderr_buffer = c.stderr_buffer ++ t ∷ [];
        },
      )
  unfolding consume_stderr
  consume_stderr-fits t c h le =
      let over : ltb c.max_bytes (c.total_bytes + byte_size t) ≡ false = ground arith in
      rw (h, over) refl

  -- While the limit is not reached, the reads are passed on as they are.
  pub pump-whole :
      (reads : List Chunk) (c : StreamConsumer)
      → c.limit_exceeded ≡ false
      → c.total_bytes + written reads ≤ c.max_bytes
      → (pump_texts now reads c).0 ≡ map whole reads
  unfolding pump_texts
  pump-whole [] c h le = refl
  pump-whole (out t ∷ reads) c h le =
      let fits : c.total_bytes + byte_size t ≤ c.max_bytes =
        omega (arith, byte_size-append t (written_out reads)) in
      let e = consume_stdout-fits t c h fits in
      ap (λ r. cons_some r.0 (pump_texts now reads r.1).0) e
      ∙ ap (λ l. whole (out t) ∷ l)
          (pump-whole reads _ h (omega (arith, byte_size-append t (written_out reads))))
  pump-whole (err t ∷ reads) c h le =
      let fits : c.total_bytes + byte_size t ≤ c.max_bytes =
        omega (arith, byte_size-append t (written_err reads)) in
      let e = consume_stderr-fits t c h fits in
      ap (λ r. cons_some r.0 (pump_texts now reads r.1).0) e
      ∙ ap (λ l. whole (err t) ∷ l)
          (pump-whole reads _ h (omega (arith, byte_size-append t (written_err reads))))

  -- What is collected of reads that are passed on as they are.
  module _ (loads : Text → Option Report) where
    pub collect-whole-stdout :
        (reads : List Chunk) (c : Collected)
        → join [] (collect loads (map whole reads) c).stdout_parts
          ≡ join [] c.stdout_parts ++ written_out reads
    unfolding accumulate
    collect-whole-stdout [] c = sym (append-nil _)
    collect-whole-stdout (out t ∷ reads) c =
        collect-whole-stdout reads _
        ∙ ap (λ l. l ++ written_out reads) (join-snoc c.stdout_parts t)
        ∙ append_assoc (join [] c.stdout_parts) t (written_out reads)
    collect-whole-stdout (err t ∷ reads) c = collect-whole-stdout reads _

    pub collect-whole-stderr :
        (reads : List Chunk) (c : Collected)
        → join [] (collect loads (map whole reads) c).stderr_parts
          ≡ join [] c.stderr_parts ++ written_err reads
    unfolding accumulate
    collect-whole-stderr [] c = sym (append-nil _)
    collect-whole-stderr (err t ∷ reads) c =
        collect-whole-stderr reads _
        ∙ ap (λ l. l ++ written_err reads) (join-snoc c.stderr_parts t)
        ∙ append_assoc (join [] c.stderr_parts) t (written_err reads)
    collect-whole-stderr (out t ∷ reads) c = collect-whole-stderr reads _
