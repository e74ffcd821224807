-- ===== src/Backend/Health.antt =====
-- backend/app/api/v1/endpoints/health.py: `health_check`. A probe answers or raises; the texts of the
-- settings and of the clock are arguments.
use secure_remote_code_execu.Prelude.{
  ℕ, ◌≡◌, refl, Bool, true, false, ◌&&◌, List, [], ◌∷◌, if◌then◌else◌, Result, ok, err, ◌==◌,
  nat_eq,
}
use secure_remote_code_execu.Prelude.Texts.{Text, codes}

-- `components[name]`, and whether the probe leaves `is_healthy` as it was.
abbrev component : Result Text Bool → Text × Bool
component (ok true) = (codes "healthy", true)
component (ok false) = (codes "unhealthy", false)
component (err e) = (codes "unavailable", false)

abbrev is_one : Result Text ℕ → Result Text Bool
is_one (ok n) = ok (n == 1)
is_one (err e) = err e

-- `HealthResponse`
pub record HealthResponse : Type 0 where
  pub status : Text
  pub version : Text
  pub environment : Text
  pub components : List (Text × Text)
  pub timestamp : Text

-- `selected` is what `SELECT 1` gives, and `pong` what the ping does.
unfoldable pub health_check : Text → Text → Text → Result Text ℕ → Result Text Bool → HealthResponse
health_check version environment now selected pong =
    let (database, database_up) = component (is_one selected) in
    let (redis, redis_up) = component pong in
    record {
      status = if database_up && redis_up then codes "healthy" else codes "degraded";
      version = version;
      environment = environment;
      components =
          (codes "api", codes "healthy")
          ∷ (codes "database", database)
          ∷ (codes "redis", redis)
          ∷ [];
      timestamp = now;
    }

-- A failing database is told apart from one that answers something else.
health_check-database_down :
    (health_check [] [] [] (err (codes "refused")) (ok true)).components
    ≡ (codes "api", codes "healthy")
      ∷ (codes "database", codes "unavailable")
      ∷ (codes "redis", codes "healthy")
      ∷ []
unfolding health_check
health_check-database_down = refl
