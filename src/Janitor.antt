-- ===== src/Janitor.antt =====
-- worker/janitor/reaper.py: `JanitorReaper.reap_stale_containers`, which worker/tasks/execution.py
-- runs periodically. The Docker engine is an argument: the containers with the label of the sandbox, if
-- it answers, and which of them it removes. Reading a time stamp gives `none` where it raises; times
-- are in microseconds.
pub mod Reaped
mod Tests
use secure_remote_code_execu.Prelude.{
  ℕ, ◌+◌, ◌*◌, ◌-◌, Bool, true, false, ◌&&◌, Option, none, some, List, [], ◌∷◌, length, ltb,
  if◌then◌else◌,
}
use secure_remote_code_execu.Prelude.Texts.{Text, is_truthy}

-- `running` is not looked at.
pub record Container : Type 0 where
  pub id : Text
  pub created_at : Option Text
  pub running : Bool

pub record Clock : Type 0 where
  pub now : ℕ
  pub from_iso : Text → Option ℕ

-- The time of a container, if it has one that can be read.
abbrev pub created_dt : Clock → Option Text → Option ℕ
created_dt c none = none
created_dt c (some raw) = if is_truthy raw then c.from_iso raw else none

-- `age_seconds > self.max_lease_seconds`
abbrev pub older_than : Clock → ℕ → Option ℕ → Bool
older_than c max_lease_seconds none = false
older_than c max_lease_seconds (some created) = ltb (created + max_lease_seconds * 1000000) c.now

abbrev pub is_stale : Clock → ℕ → Container → Bool
is_stale c max_lease_seconds container =
    older_than c max_lease_seconds (created_dt c container.created_at)

-- The loop: the identifiers that were reaped, and the containers that are left. `removes` says whether
-- removing a container succeeds.
unfoldable pub reap_all :
    Clock → ℕ → (Container → Bool) → List Container → List Text × List Container
reap_all c lease removes [] = ([], [])
reap_all c lease removes (x ∷ xs) =
    let (ids, left) = reap_all c lease removes xs in
    if is_stale c lease x && removes x then (x.id ∷ ids, left) else (ids, x ∷ left)

-- `none` is an engine that does not answer.
unfoldable pub reap_stale_containers :
    Clock → ℕ → (Container → Bool) → Option (List Container) → List Text × List Container
reap_stale_containers c lease removes none = ([], [])
reap_stale_containers c lease removes (some containers) = reap_all c lease removes containers
