-- ===== src/Streaming/Samples.antt =====
-- A small Redis server that keeps lists by key, and a codec for frames that writes lengths.
use secure_remote_code_execu.Prelude.{
  ℕ, zero, suc, ◌≡◌, ◌≢◌, arith, eq_iff, refl, ap, Option, none, some, List, [], ◌∷◌, ◌++◌, length,
  take, drop, ◌==◌, nat_eq, list_eq, eq_refl, if◌then◌else◌,
}
use secure_remote_code_execu.Prelude.Texts.{Text}
use secure_remote_code_execu.Redis.{Redis, RedisLaws}
use secure_remote_code_execu.Sandbox.Models.{
  StreamEventType, stdout, stderr, status, error, complete,
}
use secure_remote_code_execu.Streaming.Json.{Frame, FrameCodec}

-- Lists by key, and the messages by channel.
abbrev pub Store : Type 0
Store = Text → List Text

abbrev pub add_to : Text → Text → Store → Store
add_to k v s j = if j == k then s j ++ v ∷ [] else s j

abbrev pub server : Redis
server = record {
  Db = Store × Store;
  rpush = λ k v db. (length (add_to k v db.0 k), (add_to k v db.0, db.1));
  expire = λ k ttl db. db;
  lrange = λ k i db. drop i (db.0 k);
  publish = λ c m db. (db.0, add_to c m db.1);
  published = λ c db. db.1 c;
}

add_to_same : (k v : Text) (s : Store) → add_to k v s k ≡ s k ++ v ∷ []
add_to_same k v s = rw (eq_refl k) refl

add_to_other : (k v c : Text) (s : Store) → c ≢ k → add_to k v s c ≡ s c
add_to_other k v c s h = ground (arith, eq_iff c k)

pub server-RedisLaws : RedisLaws server
server-RedisLaws = record {
  lrange-start = λ k i db. refl;
  lrange-rpush = λ k v db. add_to_same k v db.0;
  length-rpush = λ k v db. refl;
  lrange-expire = λ j k ttl db h. refl;
  lrange-publish = λ c m k db. refl;
  published-publish = λ c m db. add_to_same c m db.1;
  published-publish_other = λ c d m db h. add_to_other d m c db.1 h;
  published-rpush = λ c k v db. refl;
  published-expire = λ c k ttl db. refl;
}

abbrev pub event_code : StreamEventType → ℕ
event_code stdout = 0
event_code stderr = 1
event_code status = 2
event_code error = 3
event_code complete = 4

abbrev pub event_of : ℕ → StreamEventType
event_of zero = stdout
event_of (suc zero) = stderr
event_of (suc (suc zero)) = status
event_of (suc (suc (suc zero))) = error
event_of _ = complete

event_of-event_code : (e : StreamEventType) → event_of (event_code e) ≡ e
event_of-event_code stdout = refl
event_of-event_code stderr = refl
event_of-event_code status = refl
event_of-event_code error = refl
event_of-event_code complete = refl

pub take-append : (a b : Text) → take (length a) (a ++ b) ≡ a
take-append [] b = refl
take-append (x ∷ a) b = ap (λ l. x ∷ l) (take-append a b)

pub drop-append : (a b : Text) → drop (length a) (a ++ b) ≡ b
drop-append [] b = refl
drop-append (x ∷ a) b = drop-append a b

abbrev pub write : Frame → Text
write f =
    f.sequence
    ∷ (event_code f.event
        ∷ (length f.submission_id
            ∷ (length f.payload ∷ (f.submission_id ++ (f.payload ++ f.timestamp)))))

abbrev pub read : Text → Option Frame
read (n ∷ (e ∷ (i ∷ (p ∷ rest)))) = some (record {
  submission_id = take i rest;
  sequence = n;
  event = event_of e;
  payload = take p (drop i rest);
  timestamp = drop p (drop i rest);
})
read _ = none

pub read-write : (f : Frame) → read (write f) ≡ some f
read-write f =
    rw
      (
        event_of-event_code f.event,
        take-append f.submission_id (f.payload ++ f.timestamp),
        drop-append f.submission_id (f.payload ++ f.timestamp),
        take-append f.payload f.timestamp,
        drop-append f.payload f.timestamp,
      )
      refl

abbrev pub lengths : FrameCodec
lengths = record {
  dumps = write;
  loads = read;
  loads-dumps = read-write;
  dumps-is_truthy = λ f. refl;
}

abbrev pub empty : Store × Store
empty = ((λ k. []), (λ k. []))
