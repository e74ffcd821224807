-- ===== src/Streaming/Tests.antt =====
-- A small Redis server, a codec for frames, and the theorems of streaming at a short execution.
use secure_remote_code_execu.Prelude.{
  ◌≡◌, refl, some, List, [], ◌∷◌, ◌++◌, take, drop, nat_eq, list_eq, arith,
}
use secure_remote_code_execu.Prelude.Texts.{Text, codes}
use secure_remote_code_execu.Sandbox.Models.{StreamChunk, stdout, status, error, complete}
use secure_remote_code_execu.Streaming.Buffer.{get_buffered}
use secure_remote_code_execu.Streaming.Multiplexer.{new_multiplexer, publish_all}
use secure_remote_code_execu.Streaming.Multiplexer.Gapless.{number, get_buffered-publish_all}
use secure_remote_code_execu.Streaming.Replay.{downstream_pump}
use secure_remote_code_execu.Streaming.Replay.Order.{polls_of, texts_of}
use secure_remote_code_execu.Streaming.Replay.Once.{
  downstream_pump-misses, downstream_pump-once, downstream_pump-first_terminal,
}
use secure_remote_code_execu.Streaming.Samples.{server, server-RedisLaws, lengths, read, empty}

abbrev id : Text
id = codes "s1"

-- A run that times out: the error is followed by the final report.
abbrev chunks : List StreamChunk
chunks =
    record { event = status; payload = codes "run"; timestamp = [] }
    ∷ (record { event = stdout; payload = codes "hi"; timestamp = [] }
        ∷ (record { event = error; payload = codes "late"; timestamp = [] }
            ∷ (record { event = complete; payload = codes "{}"; timestamp = [] } ∷ [])))

get_buffered-publish_all_example :
    get_buffered server lengths id 1
      (publish_all server lengths chunks (new_multiplexer id, empty)).1
    ≡ some (number id 1 (drop 1 chunks))
get_buffered-publish_all_example =
    get_buffered-publish_all server server-RedisLaws lengths id chunks 1 empty refl

downstream_pump-first_terminal_example :
    (downstream_pump read [] (polls_of (λ n. n) 0 (texts_of lengths (number id 0 chunks)))).sent
    ≡ texts_of lengths (number id 0 (take 3 chunks))
downstream_pump-first_terminal_example = downstream_pump-first_terminal lengths id chunks (λ n. n)

downstream_pump-once_example :
    (downstream_pump read
      (texts_of lengths (number id 0 (take 2 chunks)))
      (polls_of (λ n. 3) 1 (texts_of lengths (number id 1 (drop 1 (take 3 chunks)))))).sent
    ≡ texts_of lengths (number id 0 (take 3 chunks))
downstream_pump-once_example =
    downstream_pump-once lengths id (take 3 chunks) 1 2 (λ n. 3) (omega arith) (omega arith)
      (refl, (refl, tt))

downstream_pump-misses_example :
    (downstream_pump read
      (texts_of lengths (number id 0 (take 1 (take 3 chunks))))
      (polls_of (λ n. 0) 2 (texts_of lengths (number id 2 (drop 2 (take 3 chunks)))))).sent
    ≡ texts_of lengths (take 1 (number id 0 chunks))
      ++ texts_of lengths (drop 2 (number id 0 (take 3 chunks)))
downstream_pump-misses_example =
    downstream_pump-misses lengths id (take 3 chunks) 2 1 (λ n. 0) (omega arith) (omega arith)
      (refl, (refl, tt))
