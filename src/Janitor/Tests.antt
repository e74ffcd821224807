-- ===== src/Janitor/Tests.antt =====
-- Two containers of which one is stale, and the theorem of the janitor at them.
use secure_remote_code_execu.Prelude.{
  ◌≡◌, ◌↔◌, refl, ◌==◌, list_eq, nat_eq, if◌then◌else◌, true, false, none, some, List, [], ◌∷◌, map,
  keep_if,
}
use secure_remote_code_execu.Prelude.Texts.{codes}
use secure_remote_code_execu.Janitor.{Container, Clock, is_stale, reap_stale_containers}
use secure_remote_code_execu.Janitor.Reaped.{IsOld, id_of, is_fresh, reap_stale_containers-keep_if}

abbrev clock : Clock
clock = record {
  now = 60000000;
  from_iso = λ t. some (if t == codes "early" then 1000000 else 50000000);
}

abbrev containers : List Container
containers =
    record { id = codes "c1"; created_at = some (codes "early"); running = true }
    ∷ record { id = codes "c2"; created_at = some (codes "late"); running = true }
    ∷ record { id = codes "c3"; created_at = none; running = false }
    ∷ []

reap_stale_containers-keep_if_example :
    ((x : Container) → (is_stale clock 30 x ≡ true) ↔ IsOld clock 30 x)
    × ((reap_stale_containers clock 30 (λ x. true) (some containers)).0
        ≡ map id_of (keep_if (is_stale clock 30) containers))
    × ((reap_stale_containers clock 30 (λ x. true) (some containers)).1
        ≡ keep_if (is_fresh clock 30) containers)
    × ((reap_stale_containers clock 30
          (λ x. true)
          (some (reap_stale_containers clock 30 (λ x. true) (some containers)).1)).0
        ≡ [])
reap_stale_containers-keep_if_example =
    reap_stale_containers-keep_if clock 30 (λ x. true) (λ x. refl) containers
