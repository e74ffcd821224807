-- ===== src/Streaming/Buffer.antt =====
-- worker/streaming/buffer.py: `StreamBuffer`. The asynchronous and the synchronous methods send the
-- same commands.
use secure_remote_code_execu.Prelude.{ℕ, Option, none, some, List, [], ◌∷◌, ◌++◌}
use secure_remote_code_execu.Prelude.Texts.{Text, codes}
use secure_remote_code_execu.Redis.{Redis}
use secure_remote_code_execu.Streaming.Json.{Frame, FrameCodec}

-- worker/config.py
abbrev pub buffer_ttl_seconds : ℕ
buffer_ttl_seconds = 60

abbrev pub stream_buffer_prefix : Text
stream_buffer_prefix = codes "rce:buffer:"

abbrev pub stream_channel_prefix : Text
stream_channel_prefix = codes "rce:stream:"

abbrev pub buffer_key : Text → Text
buffer_key submission_id = stream_buffer_prefix ++ submission_id

-- `[json.loads(item) for item in raw_items]`; `none` is the exception of the first bad item.
abbrev pub load_all : (Text → Option Frame) → List Text → Option (List Frame)
load_all loads [] = some []
load_all loads (item ∷ items) = elim (loads item) [
  | none ↦ none
  | some frame ↦ elim (load_all loads items) [ none ↦ none | some frames ↦ some (frame ∷ frames) ]
]

module _ (redis : Redis) where
  -- `append_async` and `append_sync`, with the default time to live
  unfoldable pub append : Text → Text → redis.Db → ℕ × redis.Db
  append submission_id chunk_json db =
      let (size, db') = redis.rpush (buffer_key submission_id) chunk_json db in
      (size, redis.expire (buffer_key submission_id) buffer_ttl_seconds db')

  -- `get_buffered_async` and `get_buffered_sync`
  unfoldable pub get_buffered : FrameCodec → Text → ℕ → redis.Db → Option (List Frame)
  get_buffered codec submission_id start_index db =
      load_all codec.loads (redis.lrange (buffer_key submission_id) start_index db)
