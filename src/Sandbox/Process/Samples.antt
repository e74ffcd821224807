-- ===== src/Sandbox/Process/Samples.antt =====
-- A small machine with a Python program on it, seen by `execute` and by `stream_execute`.
use secure_remote_code_execu.Prelude.{false, none, some, List, [], ◌∷◌}
use secure_remote_code_execu.Prelude.Texts.{codes, show_nat}
use secure_remote_code_execu.Prelude.Int.{pos}
use secure_remote_code_execu.Sandbox.Models.{ExecutionRequest}
use secure_remote_code_execu.Sandbox.StreamConsumer.Holds.{Chunk, out}
use secure_remote_code_execu.Sandbox.Process.Command.{Platform}
use secure_remote_code_execu.Sandbox.Process.{Host, failed, finished}
use secure_remote_code_execu.Sandbox.Process.Stream.{StreamHost, out_bytes, started, closed}
use secure_remote_code_execu.Utf8.{encode}

abbrev pub linux : Platform
linux = record { is_windows = false; cargo_rustc = none; go_candidate = none }

abbrev pub host : Host
host = record {
  platform = linux;
  prepare = none;
  in_directory = λ name. codes "/tmp/a/";
  compile = λ command. failed [];
  run = λ command input ms. finished (pos 0) (codes "4") [];
  elapsed_ms = 20;
  show_seconds = show_nat;
}

abbrev pub stream_host : StreamHost
stream_host = record {
  platform = linux;
  directory = none;
  prepare = none;
  in_directory = λ name. codes "/tmp/a/";
  compile = λ command. failed [];
  session = λ command input ms.
      started (out_bytes (encode (codes "4")) ∷ (out_bytes (encode (codes "2")) ∷ []))
        (closed (some (pos 0)));
  elapsed_ms = 20;
  show_seconds = show_nat;
}

abbrev pub request : ExecutionRequest
request = record {
  source_code = codes "print(4)";
  language = codes "python";
  stdin_data = none;
  timeout_ms = 5000;
  memory_limit = codes "128m";
  cpu_quota = 50000;
  max_pids = 64;
  max_output_bytes = 8;
}

abbrev pub reads : List Chunk
reads = out (codes "4") ∷ (out (codes "2") ∷ [])
