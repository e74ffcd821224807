-- ===== src/Backend/Tests.antt =====
-- A room and a few submissions, and the theorems of the services at them.
use secure_remote_code_execu.Prelude.{
  some, true, ℕ, ◌≡◌, refl, none, err, List, [], ◌∷◌, list_eq, nat_eq, arith,
}
use secure_remote_code_execu.Prelude.Texts.{Text, codes}
use secure_remote_code_execu.Database.{User, Submission}
use secure_remote_code_execu.Backend.Rooms.{RoomCreate, Tables, join_room}
use secure_remote_code_execu.Backend.Rooms.Members.{rows, IsUnique, Joined, join_room-Joined}
use secure_remote_code_execu.Backend.Rooms.Race.{join_together, join_together-raises}
use secure_remote_code_execu.Backend.Submissions.{
  Settings, SubmissionCreate, Store, pending, get_submission,
}
use secure_remote_code_execu.Backend.Submissions.Tenants.{get_submission-own}

abbrev nobody : Tables
nobody = record { rooms = []; members = [] }

nobody-IsUnique : IsUnique nobody
nobody-IsUnique room_id user_id = omega arith

join_room-Joined_example :
    Joined
      (codes "r1")
      (codes "u1")
      (join_room (codes "m1") (codes "r1") (codes "u1") (codes "editor") nobody)
join_room-Joined_example =
    join_room-Joined (codes "m1") (codes "r1") (codes "u1") (codes "editor") nobody nobody-IsUnique

abbrev numbers : List ℕ
numbers = 1 ∷ (2 ∷ (3 ∷ []))

abbrev student : User
student = record {
  id = codes "u1";
  username = codes "u1";
  email = codes "u1@lab";
  hashed_password = [];
  role = codes "student";
  is_active = true;
}

abbrev row : Text → Text → Submission ℕ
row id user_id = pending id user_id (record {
  language = codes "python";
  source_code = [];
  stdin_data = none;
  timeout_seconds = none;
})

abbrev mine : List (Submission ℕ)
mine = row (codes "s1") (codes "u1") ∷ []

abbrev everyone : List (Submission ℕ)
everyone = row (codes "s1") (codes "u1") ∷ (row (codes "s2") (codes "u2") ∷ [])

get_submission-own_example :
    get_submission (codes "s2") student everyone ≡ get_submission (codes "s2") student mine
get_submission-own_example = get_submission-own (codes "s2") student everyone mine refl refl

abbrev room_in : RoomCreate
room_in = record {
  name = codes "pairs";
  language = codes "python";
  initial_code = [];
  max_members = 2;
}

abbrev sub_in : SubmissionCreate
sub_in = record {
  language = codes "python";
  source_code = [];
  stdin_data = none;
  timeout_seconds = some 5;
}

abbrev settings : Settings
settings = record {
  execution_timeout_seconds = 5;
  sandbox_memory_limit = codes "128m";
  sandbox_cpu_quota = 50000;
  sandbox_max_pids = 64;
  sandbox_max_output_bytes = 1048576;
}

abbrev table : Store ℕ
table = record { submissions = everyone; queue = [] }

abbrev classmate : User
classmate = record {
  id = codes "u2";
  username = codes "u2";
  email = codes "u2@lab";
  hashed_password = [];
  role = codes "student";
  is_active = true;
}

-- Two clicks on the same button.
join_together-raises_example :
    (rows (codes "r1") (codes "u1") (
        join_together
          (codes "r1")
          (codes "u1")
          (codes "editor")
          (codes "m1" ∷ codes "m2" ∷ [])
          nobody)
      ≡ 2)
    × (join_room (codes "m3") (codes "r1") (codes "u1") (codes "editor") (
          join_together
            (codes "r1")
            (codes "u1")
            (codes "editor")
            (codes "m1" ∷ codes "m2" ∷ [])
            nobody)
        ≡ err (codes "MultipleResultsFound"))
join_together-raises_example =
    join_together-raises (codes "r1") (codes "u1") (codes "editor") (codes "m1" ∷ codes "m2" ∷ [])
      nobody (codes "m3") refl (omega arith)
