-- ===== src/Streaming/Multiplexer/Gapless.antt =====
-- The frames of an execution: numbered from 0 without a gap, the same in the buffer and on the channel.
use mathlib.Core.List.{append_assoc, append-nil}
use secure_remote_code_execu.Prelude.{
  ℕ, zero, suc, ◌+◌, ◌≡◌, refl, ap, sym, ◌∙◌, some, List, [], ◌∷◌, ◌++◌, map, drop, arith,
}
use secure_remote_code_execu.Prelude.Texts.{Text}
use secure_remote_code_execu.Redis.{Redis, RedisLaws}
use secure_remote_code_execu.Sandbox.Models.{StreamChunk}
use secure_remote_code_execu.Streaming.Json.{Frame, FrameCodec}
use secure_remote_code_execu.Streaming.Buffer.{
  buffer_key, stream_channel_prefix, append, load_all, get_buffered,
}
use secure_remote_code_execu.Streaming.Multiplexer.{
  StreamMultiplexer, new_multiplexer, frame_of, format_payload, publish_chunk, publish_all,
}

-- The frames of a submission whose first sequence number is `n`.
abbrev pub number : Text → ℕ → List StreamChunk → List Frame
number id n [] = []
number id n (chunk ∷ chunks) =
    record {
      submission_id = id;
      sequence = n;
      event = chunk.event;
      payload = chunk.payload;
      timestamp = chunk.timestamp;
    }
    ∷ number id (n + 1) chunks

pub drop-number :
    (k : ℕ) (id : Text) (n : ℕ) (chunks : List StreamChunk)
    → drop k (number id n chunks) ≡ number id (n + k) (drop k chunks)
drop-number zero id n chunks = ap (λ i. number id i chunks) (omega arith)
drop-number (suc k) id n [] = refl
drop-number (suc k) id n (c ∷ chunks) =
    drop-number k id (n + 1) chunks ∙ ap (λ i. number id i (drop k chunks)) (omega arith)

drop-map {ℓ} :
    {A B : Type ℓ} (f : A → B) (k : ℕ) (xs : List A) → drop k (map f xs) ≡ map f (drop k xs)
drop-map f zero xs = refl
drop-map f (suc k) [] = refl
drop-map f (suc k) (x ∷ xs) = drop-map f k xs

load_all-dumps :
    (codec : FrameCodec) (frames : List Frame)
    → load_all codec.loads (map codec.dumps frames) ≡ some frames
load_all-dumps codec [] = refl
load_all-dumps codec (f ∷ fs) = rw (codec.loads-dumps f, load_all-dumps codec fs)

module _ (redis : Redis) (laws : RedisLaws redis) (codec : FrameCodec) where
  open redis use {Db, lrange, published}

  lrange-publish_chunk :
      (c : StreamChunk) (mux : StreamMultiplexer) (db : Db)
      → lrange (buffer_key mux.submission_id) 0 (publish_chunk redis codec c (mux, db)).1.1
        ≡ lrange (buffer_key mux.submission_id) 0 db ++ codec.dumps (frame_of mux c) ∷ []
  unfolding publish_chunk append
  lrange-publish_chunk c mux db =
      laws.lrange-expire (buffer_key mux.submission_id) (buffer_key mux.submission_id) 60 _
        (omega arith)
      ∙ laws.lrange-rpush (buffer_key mux.submission_id) (codec.dumps (frame_of mux c)) _
      ∙ ap (λ l. l ++ codec.dumps (frame_of mux c) ∷ [])
          (laws.lrange-publish mux.channel (codec.dumps (frame_of mux c))
            (buffer_key mux.submission_id) db)

  published-publish_chunk :
      (c : StreamChunk) (mux : StreamMultiplexer) (db : Db)
      → published mux.channel (publish_chunk redis codec c (mux, db)).1.1
        ≡ published mux.channel db ++ codec.dumps (frame_of mux c) ∷ []
  unfolding publish_chunk append
  published-publish_chunk c mux db =
      laws.published-expire mux.channel (buffer_key mux.submission_id) 60 _
      ∙ laws.published-rpush mux.channel (buffer_key mux.submission_id)
          (codec.dumps (frame_of mux c)) _
      ∙ laws.published-publish mux.channel (codec.dumps (frame_of mux c)) db

  lrange-publish_all :
      (chunks : List StreamChunk) (mux : StreamMultiplexer) (db : Db)
      → lrange (buffer_key mux.submission_id) 0 (publish_all redis codec chunks (mux, db)).1
        ≡ lrange (buffer_key mux.submission_id) 0 db
          ++ map codec.dumps (number mux.submission_id mux.sequence chunks)
  unfolding publish_all publish_chunk format_payload append
  lrange-publish_all [] mux db = sym (append-nil _)
  lrange-publish_all (c ∷ chunks) mux db =
      lrange-publish_all chunks (publish_chunk redis codec c (mux, db)).1.0
        (publish_chunk redis codec c (mux, db)).1.1
      ∙ ap (λ l. l ++ map codec.dumps (number mux.submission_id (mux.sequence + 1) chunks))
          (lrange-publish_chunk c mux db)
      ∙ append_assoc _ (codec.dumps (frame_of mux c) ∷ []) _

  published-publish_all :
      (chunks : List StreamChunk) (mux : StreamMultiplexer) (db : Db)
      → published mux.channel (publish_all redis codec chunks (mux, db)).1
        ≡ published mux.channel db ++ map codec.dumps (number mux.submission_id mux.sequence chunks)
  unfolding publish_all publish_chunk format_payload append
  published-publish_all [] mux db = sym (append-nil _)
  published-publish_all (c ∷ chunks) mux db =
      published-publish_all chunks (publish_chunk redis codec c (mux, db)).1.0
        (publish_chunk redis codec c (mux, db)).1.1
      ∙ ap (λ l. l ++ map codec.dumps (number mux.submission_id (mux.sequence + 1) chunks))
          (published-publish_chunk c mux db)
      ∙ append_assoc _ (codec.dumps (frame_of mux c) ∷ []) _

  -- From an empty buffer: after any chunks have been published, reading the buffer at any index gives
  -- the frames of the remaining chunks, in order, numbered from that index on without a gap.
  pub get_buffered-publish_all :
      (id : Text) (chunks : List StreamChunk) (k : ℕ) (db : Db)
      → lrange (buffer_key id) 0 db ≡ []
      → get_buffered redis codec id k (publish_all redis codec chunks (new_multiplexer id, db)).1
        ≡ some (number id k (drop k chunks))
  unfolding get_buffered
  get_buffered-publish_all id chunks k db h =
      ap (load_all codec.loads) (
        laws.lrange-start (buffer_key id) k _
        ∙ ap (drop k) (
            lrange-publish_all chunks (new_multiplexer id) db
            ∙ ap (λ l. l ++ map codec.dumps (number id 0 chunks)) h)
        ∙ drop-map codec.dumps k (number id 0 chunks)
        ∙ ap (map codec.dumps) (drop-number k id 0 chunks))
      ∙ load_all-dumps codec (number id (0 + k) (drop k chunks))
      ∙ ap (λ i. some (number id i (drop k chunks))) (omega arith)

  -- From an empty buffer and a channel that nothing was published on: after any chunks have been
  -- published, the messages of the channel are exactly the entries of the buffer, in the same order.
  pub published_eq_lrange :
      (id : Text) (chunks : List StreamChunk) (db : Db)
      → lrange (buffer_key id) 0 db ≡ []
      → published (stream_channel_prefix ++ id) db ≡ []
      → published
          (stream_channel_prefix ++ id)
          (publish_all redis codec chunks (new_multiplexer id, db)).1
        ≡ lrange (buffer_key id) 0 (publish_all redis codec chunks (new_multiplexer id, db)).1
  published_eq_lrange id chunks db h k =
      published-publish_all chunks (new_multiplexer id) db
      ∙ ap (λ l. l ++ map codec.dumps (number id 0 chunks)) (k ∙ sym h)
      ∙ sym (lrange-publish_all chunks (new_multiplexer id) db)
