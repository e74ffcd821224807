-- ===== src/Streaming/Multiplexer.antt =====
-- worker/streaming/multiplexer.py: `StreamMultiplexer`. The asynchronous and the synchronous methods
-- send the same commands.
pub mod Gapless
use secure_remote_code_execu.Prelude.{ℕ, ◌+◌, List, [], ◌∷◌, ◌++◌}
use secure_remote_code_execu.Prelude.Texts.{Text}
use secure_remote_code_execu.Redis.{Redis}
use secure_remote_code_execu.Sandbox.Models.{StreamChunk}
use secure_remote_code_execu.Streaming.Json.{Frame, FrameCodec}
use secure_remote_code_execu.Streaming.Buffer
use secure_remote_code_execu.Streaming.Buffer.{stream_channel_prefix}

pub record StreamMultiplexer : Type 0 where
  pub submission_id : Text
  pub sequence : ℕ
  pub channel : Text

abbrev pub new_multiplexer : Text → StreamMultiplexer
new_multiplexer submission_id = record {
  submission_id = submission_id;
  sequence = 0;
  channel = stream_channel_prefix ++ submission_id;
}

abbrev pub frame_of : StreamMultiplexer → StreamChunk → Frame
frame_of mux chunk = record {
  submission_id = mux.submission_id;
  sequence = mux.sequence;
  event = chunk.event;
  payload = chunk.payload;
  timestamp = chunk.timestamp;
}

unfoldable pub format_payload :
    FrameCodec → StreamChunk → StreamMultiplexer → Text × StreamMultiplexer
format_payload codec chunk mux =
    (codec.dumps (frame_of mux chunk), record mux { sequence = mux.sequence + 1 })

module _ (redis : Redis) (codec : FrameCodec) where
  -- `publish_chunk_async` and `publish_chunk_sync`
  unfoldable pub publish_chunk :
      StreamChunk → StreamMultiplexer × redis.Db → Text × (StreamMultiplexer × redis.Db)
  unfolding format_payload
  publish_chunk chunk (mux, db) =
      let (payload_str, mux') = format_payload codec chunk mux in
      let db' = redis.publish mux'.channel payload_str db in
      let (size, db'') = Buffer.append redis mux'.submission_id payload_str db' in
      (payload_str, (mux', db''))

  -- One chunk after the other, as `_stream_and_collect` calls it.
  unfoldable pub publish_all :
      List StreamChunk → StreamMultiplexer × redis.Db → StreamMultiplexer × redis.Db
  publish_all [] s = s
  publish_all (chunk ∷ chunks) s = publish_all chunks (publish_chunk chunk s).1
