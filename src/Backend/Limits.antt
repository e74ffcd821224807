-- ===== src/Backend/Limits.antt =====
-- backend/app/core/rate_limiter.py: `RateLimiter`. The sorted sets of the Redis server are an argument
-- with what its commands are documented to do. Times are naturals of any unit, as is the window.
-- The expiry that is set behind the window is not modelled.
pub mod Live
pub mod Window
pub mod Race
mod Tests
use secure_remote_code_execu.Prelude.{
  ℕ, ◌≡◌, ◌+◌, Bool, true, false, not, Option, none, some, List, [], ◌∷◌, ◌++◌, length, keep_if,
  leb, ◌==◌, list_eq, nat_eq, if◌then◌else◌,
}
use secure_remote_code_execu.Prelude.Texts.{Text, codes, show_nat, is_truthy}
use secure_remote_code_execu.Prelude.Int.{ℤ, pos, sub_ℕ, ltb_ℤ}

-- A member of a sorted set and its score.
pub record Entry : Type 0 where
  pub member : Text
  pub score : ℕ

pub record SortedSets : Type 1 where
  pub Db : Type 0
  -- `ZREMRANGEBYSCORE key 0 max`
  pub zremrangebyscore : Text → ℤ → Db → Db
  -- `ZCARD key`
  pub zcard : Text → Db → ℕ
  -- `ZADD key score member`
  pub zadd : Text → Entry → Db → Db
  -- `EXPIRE key seconds`
  pub expire : Text → ℕ → Db → Db
  -- the entries of a set
  pub entries : Text → Db → List Entry

abbrev pub has_member : Text → List Entry → Bool
has_member m [] = false
has_member m (e ∷ es) = if e.member == m then true else has_member m es

-- No score is negative, and no set expires.
pub record SortedSetsLaws (r : SortedSets) : Type 0 where
  pub entries-zremrangebyscore :
      (k : Text) (hi : ℤ) (db : r.Db)
      → r.entries k (r.zremrangebyscore k hi db)
        ≡ keep_if (λ e. ltb_ℤ hi (pos e.score)) (r.entries k db)
  pub zcard-entries : (k : Text) (db : r.Db) → r.zcard k db ≡ length (r.entries k db)
  pub entries-zadd :
      (k : Text) (e : Entry) (db : r.Db)
      → has_member e.member (r.entries k db) ≡ false
      → r.entries k (r.zadd k e db) ≡ e ∷ r.entries k db
  pub entries-expire :
      (k j : Text) (ttl : ℕ) (db : r.Db) → r.entries k (r.expire j ttl db) ≡ r.entries k db

pub record RateLimiter : Type 0 where
  pub max_requests : ℕ
  pub window_seconds : ℕ
  pub scope : Text

-- The client's address, and `request.state.user_id`.
pub record Request : Type 0 where
  pub host : Option Text
  pub user_id : Option Text

abbrev pub client_ip : Option Text → Text
client_ip none = codes "unknown"
client_ip (some host) = host

abbrev pub identifier_or : Option Text → Text → Text
identifier_or none ip = codes "ip:" ++ ip
identifier_or (some id) ip = if is_truthy id then codes "user:" ++ id else codes "ip:" ++ ip

abbrev pub limit_key : RateLimiter → Request → Text
limit_key l q =
    codes "rce:ratelimit:" ++ (l.scope ++ (codes ":" ++ identifier_or q.user_id (client_ip q.host)))

-- Go on, or answer 429 with the seconds of `Retry-After`.
pub data Verdict : Type 0 where
  admitted : Verdict
  limited : ℕ → Verdict

module _ (r : SortedSets) where
  open r use {Db}

  -- The first pipeline: what is older than the window goes, and the rest is counted.
  abbrev pub count_window : RateLimiter → Text → ℕ → Db → ℕ × Db
  count_window l key now db =
      let cleared = r.zremrangebyscore key (sub_ℕ now l.window_seconds) db in
      (r.zcard key cleared, cleared)

  -- The second pipeline.
  abbrev pub record_request : RateLimiter → Text → Entry → Db → Db
  record_request l key e db = r.expire key (l.window_seconds + 5) (r.zadd key e db)

  -- What a call does when the first pipeline has answered; `records` says whether the second does.
  abbrev pub decide : RateLimiter → Text → Entry → Bool → ℕ × Db → Verdict × Db
  decide l key e records (current_count, db) =
      if leb l.max_requests current_count
      then (limited l.window_seconds, db)
      else if records
      then (admitted, record_request l key e db)
      else (admitted, db)

  -- `__call__`, with the member and the time of the call. `counts` and `records` say whether Redis
  -- answers the two pipelines; if it does not, the request goes on.
  unfoldable pub limit_request : RateLimiter → Request → Entry → Bool → Bool → Db → Verdict × Db
  limit_request l q e counts records db =
      if counts
      then decide l (limit_key l q) e records (count_window l (limit_key l q) e.score db)
      else (admitted, db)
