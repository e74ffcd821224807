-- ===== src/Redis.antt =====
-- The commands of a Redis server that the program sends. The server is not part of the program,
-- so it is an argument: a type of states, the commands on it, and what they are documented to do.
use secure_remote_code_execu.Prelude.{ℕ, ◌≡◌, ◌≢◌, ◌<◌, List, [], ◌∷◌, ◌++◌, length, drop}
use secure_remote_code_execu.Prelude.Texts.{Text}

pub record Redis : Type 1 where
  pub Db : Type 0
  -- `RPUSH key value`: the length of the list, and the state behind it
  pub rpush : Text → Text → Db → ℕ × Db
  -- `EXPIRE key seconds`
  pub expire : Text → ℕ → Db → Db
  -- `LRANGE key start -1`, for a start that is not negative
  pub lrange : Text → ℕ → Db → List Text
  -- `PUBLISH channel message`
  pub publish : Text → Text → Db → Db
  -- what has been published on a channel, oldest first
  pub published : Text → Db → List Text

-- As long as no list expires: `RPUSH` appends, the other commands leave the lists alone, and
-- messages are handed out in the order in which they are published.
pub record RedisLaws (r : Redis) : Type 0 where
  pub lrange-start : (k : Text) (i : ℕ) (db : r.Db) → r.lrange k i db ≡ drop i (r.lrange k 0 db)
  pub lrange-rpush :
      (k v : Text) (db : r.Db) → r.lrange k 0 (r.rpush k v db).1 ≡ r.lrange k 0 db ++ v ∷ []
  pub length-rpush :
      (k v : Text) (db : r.Db) → (r.rpush k v db).0 ≡ length (r.lrange k 0 (r.rpush k v db).1)
  pub lrange-expire :
      (j k : Text) (ttl : ℕ) (db : r.Db)
      → 0 < ttl
      → r.lrange k 0 (r.expire j ttl db) ≡ r.lrange k 0 db
  pub lrange-publish :
      (c m k : Text) (db : r.Db) → r.lrange k 0 (r.publish c m db) ≡ r.lrange k 0 db
  pub published-publish :
      (c m : Text) (db : r.Db) → r.published c (r.publish c m db) ≡ r.published c db ++ m ∷ []
  pub published-publish_other :
      (c d m : Text) (db : r.Db) → c ≢ d → r.published c (r.publish d m db) ≡ r.published c db
  pub published-rpush :
      (c k v : Text) (db : r.Db) → r.published c (r.rpush k v db).1 ≡ r.published c db
  pub published-expire :
      (c k : Text) (ttl : ℕ) (db : r.Db) → r.published c (r.expire k ttl db) ≡ r.published c db
