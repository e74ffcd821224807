-- ===== src/Sandbox/StreamConsumer.antt =====
-- worker/sandbox/stream_consumer.py: `StreamConsumer`, which caps the output of a program. The
-- time stamp that a chunk gets by default is the argument `now`.
pub mod Holds
pub mod Steps
pub mod Cap
use secure_remote_code_execu.Prelude.{
  ℕ, ◌+◌, ◌-◌, Bool, true, false, Option, none, some, List, [], ◌∷◌, ◌++◌, length, take, ltb,
  if◌then◌else◌,
}
use secure_remote_code_execu.Prelude.Texts.{Text, codes, join, show_nat}
use secure_remote_code_execu.Utf8.{encode, decode_ignore}
use secure_remote_code_execu.Sandbox.Models.{StreamChunk, stdout, stderr}

pub record StreamConsumer : Type 0 where
  pub max_bytes : ℕ
  pub total_bytes : ℕ
  pub limit_exceeded : Bool
  pub stdout_buffer : List Text
  pub stderr_buffer : List Text

abbrev pub new_consumer : ℕ → StreamConsumer
new_consumer max_bytes = record {
  max_bytes = max_bytes;
  total_bytes = 0;
  limit_exceeded = false;
  stdout_buffer = [];
  stderr_buffer = [];
}

abbrev pub byte_size : Text → ℕ
byte_size chunk = length (encode chunk)

unfoldable pub limit_notice : StreamConsumer → Text
limit_notice c =
    10
    ∷ (10
        ∷ (codes "[SYSTEM: Output limit of "
            ++ (show_nat c.max_bytes ++ codes " bytes exceeded. Stream terminated.]")))

unfoldable pub consume_stdout : Text → Text → StreamConsumer → Option StreamChunk × StreamConsumer
unfolding limit_notice
consume_stdout now chunk c =
    let chunk_bytes = byte_size chunk in
    let allowed_bytes = c.max_bytes - c.total_bytes in
    let truncated_chunk = decode_ignore (take allowed_bytes (encode chunk)) in
    if c.limit_exceeded
    then (none, c)
    else if ltb c.max_bytes (c.total_bytes + chunk_bytes)
    then (
      some
          (record { event = stdout; payload = truncated_chunk ++ limit_notice c; timestamp = now }),
      record c {
        total_bytes = c.total_bytes + allowed_bytes;
        limit_exceeded = true;
        stdout_buffer = c.stdout_buffer ++ truncated_chunk ∷ [];
      },
    )
    else (
      some (record { event = stdout; payload = chunk; timestamp = now }),
      record c {
        total_bytes = c.total_bytes + chunk_bytes;
        stdout_buffer = c.stdout_buffer ++ chunk ∷ [];
      },
    )

unfoldable pub consume_stderr : Text → Text → StreamConsumer → Option StreamChunk × StreamConsumer
consume_stderr now chunk c =
    let chunk_bytes = byte_size chunk in
    let notice = 10 ∷ codes "[SYSTEM: Output limit exceeded. Standard error stream truncated.]" in
    if c.limit_exceeded
    then (none, c)
    else if ltb c.max_bytes (c.total_bytes + chunk_bytes)
    then (
      some (record { event = stderr; payload = notice; timestamp = now }),
      record c { limit_exceeded = true },
    )
    else (
      some (record { event = stderr; payload = chunk; timestamp = now }),
      record c {
        total_bytes = c.total_bytes + chunk_bytes;
        stderr_buffer = c.stderr_buffer ++ chunk ∷ [];
      },
    )

unfoldable pub get_full_stdout : StreamConsumer → Text
get_full_stdout c = join [] c.stdout_buffer

unfoldable pub get_full_stderr : StreamConsumer → Text
get_full_stderr c = join [] c.stderr_buffer
