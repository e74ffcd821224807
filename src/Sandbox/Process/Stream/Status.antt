-- ===== src/Sandbox/Process/Stream/Status.antt =====
-- The status of a run does not depend on how its output arrives.
use secure_remote_code_execu.Prelude.{
  ℕ, ◌<◌, ◌≡◌, ◌↔◌, refl, ap, sym, ◌∙◌, Bool, true, List, [], ◌∷◌, ◌++◌, map, All, All-append,
  arith,
}
use secure_remote_code_execu.Prelude.Texts.{Text}
use secure_remote_code_execu.Utf8.Laws.{IsScalar}
use secure_remote_code_execu.Sandbox.Models.{ExecutionRequest}
use secure_remote_code_execu.Sandbox.StreamConsumer.{
  StreamConsumer, new_consumer, consume_stdout, consume_stderr,
}
use secure_remote_code_execu.Sandbox.StreamConsumer.Holds.{
  Chunk, out, err, IsText, consume, consume_all, written_out, written_err,
}
use secure_remote_code_execu.Sandbox.StreamConsumer.Cap.{written, limit_exceeded_iff}
use secure_remote_code_execu.Sandbox.Process.{classify, consume_output}
use secure_remote_code_execu.Sandbox.Process.AtOnce.{
  at_once, written_out-at_once, written_err-at_once, at_once-IsText, consume_output-at_once,
}
use secure_remote_code_execu.Sandbox.Process.Stream.{
  Ending, limit_of, code_of, Read, out_bytes, err_bytes, decode_read, pump_texts, pump,
  final_status,
}
use secure_remote_code_execu.Utf8.{encode, decode_replace}
use secure_remote_code_execu.Utf8.Replace.{decode_replace-encode, encode-append}

written_out-IsText : (xs : List Chunk) → All IsText xs → All IsScalar (written_out xs)
written_out-IsText [] h = tt
written_out-IsText (out t ∷ xs) h = All-append IsScalar t _ h.0 (written_out-IsText xs h.1)
written_out-IsText (err t ∷ xs) h = written_out-IsText xs h.1

written_err-IsText : (xs : List Chunk) → All IsText xs → All IsScalar (written_err xs)
written_err-IsText [] h = tt
written_err-IsText (out t ∷ xs) h = written_err-IsText xs h.1
written_err-IsText (err t ∷ xs) h = All-append IsScalar t _ h.0 (written_err-IsText xs h.1)

-- The reads of texts that are written one at a time.
abbrev pub encode_read : Chunk → Read
encode_read (out t) = out_bytes (encode t)
encode_read (err t) = err_bytes (encode t)

-- All bytes of one stream, which `execute` gets at once.
abbrev pub stdout_bytes : List Read → List ℕ
stdout_bytes [] = []
stdout_bytes (out_bytes b ∷ reads) = b ++ stdout_bytes reads
stdout_bytes (err_bytes b ∷ reads) = stdout_bytes reads

abbrev pub stderr_bytes : List Read → List ℕ
stderr_bytes [] = []
stderr_bytes (out_bytes b ∷ reads) = stderr_bytes reads
stderr_bytes (err_bytes b ∷ reads) = b ++ stderr_bytes reads

pub decoded_reads :
    (texts : List Chunk) → All IsText texts → map decode_read (map encode_read texts) ≡ texts
decoded_reads [] h = refl
decoded_reads (out t ∷ texts) h =
    simp (decode_replace-encode t h.0) (ap (λ l. out t ∷ l) (decoded_reads texts h.1))
decoded_reads (err t ∷ texts) h =
    simp (decode_replace-encode t h.0) (ap (λ l. err t ∷ l) (decoded_reads texts h.1))

stdout_bytes-encode :
    (texts : List Chunk) → stdout_bytes (map encode_read texts) ≡ encode (written_out texts)
unfolding encode
stdout_bytes-encode [] = refl
stdout_bytes-encode (out t ∷ texts) =
    ap (λ l. encode t ++ l) (stdout_bytes-encode texts) ∙ sym (encode-append t (written_out texts))
stdout_bytes-encode (err t ∷ texts) = stdout_bytes-encode texts

stderr_bytes-encode :
    (texts : List Chunk) → stderr_bytes (map encode_read texts) ≡ encode (written_err texts)
unfolding encode
stderr_bytes-encode [] = refl
stderr_bytes-encode (out t ∷ texts) = stderr_bytes-encode texts
stderr_bytes-encode (err t ∷ texts) =
    ap (λ l. encode t ++ l) (stderr_bytes-encode texts) ∙ sym (encode-append t (written_err texts))

pub decoded_stdout :
    (texts : List Chunk)
    → All IsText texts
    → decode_replace (stdout_bytes (map encode_read texts)) ≡ written_out texts
decoded_stdout texts h =
    ap decode_replace (stdout_bytes-encode texts)
    ∙ decode_replace-encode (written_out texts) (written_out-IsText texts h)

pub decoded_stderr :
    (texts : List Chunk)
    → All IsText texts
    → decode_replace (stderr_bytes (map encode_read texts)) ≡ written_err texts
decoded_stderr texts h =
    ap decode_replace (stderr_bytes-encode texts)
    ∙ decode_replace-encode (written_err texts) (written_err-IsText texts h)

same_test : (a b : Bool) (m n k : ℕ) → (a ≡ true) ↔ (m < n) → (b ≡ true) ↔ (m < k) → n ≡ k → a ≡ b
same_test a b m n k h i e = ground arith

module _ (now : Text) where
  -- The consumer behind the pumps is the one that got the reads.
  pump_texts-consume_all :
      (reads : List Chunk) (c : StreamConsumer)
      → (pump_texts now reads c).1 ≡ consume_all now reads c
  unfolding pump_texts consume_all consume
  pump_texts-consume_all [] c = refl
  pump_texts-consume_all (out t ∷ reads) c = pump_texts-consume_all reads (consume_stdout now t c).1
  pump_texts-consume_all (err t ∷ reads) c = pump_texts-consume_all reads (consume_stderr now t c).1

  -- A run has the same status in a stream, whatever the interleaving and the sizes of its reads, as
  -- `execute` gives it when it decodes all of the two outputs at once, if both outputs are text and no
  -- read ends within a character.
  pub final_status-consume_output :
      (r : ExecutionRequest) (texts : List Chunk) (ending : Ending)
      → All IsText texts
      → final_status now r (map encode_read texts) ending
        ≡ classify
            (limit_of ending)
            (consume_output now
              (decode_replace (stdout_bytes (map encode_read texts)))
              (decode_replace (stderr_bytes (map encode_read texts)))
              (new_consumer r.max_output_bytes)).limit_exceeded
            (code_of ending)
  unfolding final_status pump
  final_status-consume_output r texts ending h =
      let o : Text = written_out texts in
      let e : Text = written_err texts in
      simp (decoded_reads texts h, decoded_stdout texts h, decoded_stderr texts h)
        (ap (λ c. classify (limit_of ending) c.limit_exceeded (code_of ending))
            (pump_texts-consume_all texts (new_consumer r.max_output_bytes))
          ∙ ap (λ b. classify (limit_of ending) b (code_of ending))
              (same_test _ _ r.max_output_bytes (written texts) (written (at_once o e))
                (limit_exceeded_iff now r.max_output_bytes texts h)
                (limit_exceeded_iff now r.max_output_bytes (at_once o e)
                  (at_once-IsText o e (written_out-IsText texts h) (written_err-IsText texts h)))
                (rw (written_out-at_once o e, written_err-at_once o e) refl))
          ∙ ap (λ c. classify (limit_of ending) c.limit_exceeded (code_of ending))
              (sym (consume_output-at_once now o e (new_consumer r.max_output_bytes))))
