-- ===== src/Backend/Endpoints/Tests.antt =====
-- An empty gateway, a few requests to it, and the theorems on the endpoints at them.
use secure_remote_code_execu.Prelude.{ℕ, ◌≡◌, refl, true, false, none, List, [], ◌∷◌, arith}
use secure_remote_code_execu.Prelude.Texts.{codes}
use secure_remote_code_execu.Database.{User, Submission}
use secure_remote_code_execu.Backend.Submissions.{SubmissionCreate, pending}
use secure_remote_code_execu.Backend.Rooms.{RoomCreate}
use secure_remote_code_execu.Backend.Problems.{Loading}
use secure_remote_code_execu.Backend.Problems.Seed.{SeedIds}
use secure_remote_code_execu.Backend.Users.{UserCreate, create_user, register}
use secure_remote_code_execu.Backend.Users.Samples.{plain, user_in}
use secure_remote_code_execu.Backend.Endpoints.{
  get_problem_endpoint, get_room_endpoint, create_room_endpoint, join_room_endpoint,
}
use secure_remote_code_execu.Backend.Endpoints.Invariant.{
  Gateway, IsGateway, Reach, here, registers, asks_for_problem, opens_room, Reach-IsGateway,
}
use secure_remote_code_execu.Backend.Endpoints.Answers.{is_500, Reach-answers}

abbrev fresh_install : Gateway
fresh_install = record {
  accounts = [];
  catalog = record { problems = []; test_cases = [] };
  tables = record { rooms = []; members = [] };
}

fresh_install-IsGateway : IsGateway fresh_install
fresh_install-IsGateway = record {
  accounts = record {
    ids = λ k. omega arith;
    usernames = λ k. omega arith;
    emails = λ k. omega arith;
    names = tt;
  };
  catalog = record { ids = λ k. omega arith; slugs = λ k. omega arith };
  members = λ r u. omega arith;
  rooms = λ k. omega arith;
}

abbrev student : User
student = record {
  id = codes "u1";
  username = codes "ada";
  email = codes "ada@lab";
  hashed_password = [];
  role = codes "student";
  is_active = true;
}

abbrev loading : Loading
loading = record {
  by_order = λ ts. ts;
  oldest_first = λ ps. ps;
  parse_uuid = λ t. none;
  upper = λ t. t;
}

abbrev seed_ids : SeedIds
seed_ids = record {
  two_sum_id = codes "1";
  palindrome_id = codes "2";
  fib_id = codes "3";
  case_id = λ p n. n ∷ p;
}

abbrev room_in : RoomCreate
room_in = record {
  name = codes "pairs";
  language = codes "python";
  initial_code = [];
  max_members = 2;
}

abbrev other : UserCreate
other = record user_in { username = codes "grace"; email = codes "grace@lab" }

abbrev registered_one : Gateway
registered_one = record fresh_install { accounts = (register plain (codes "u1") [] user_in []).1 }

abbrev asked : Gateway
asked = record registered_one {
  catalog =
      (get_problem_endpoint loading seed_ids student (codes "two-sum") registered_one.catalog).1;
}

abbrev opened : Gateway
opened = record asked {
  tables = (create_room_endpoint (codes "r1") (codes "m1") student room_in asked.tables).1;
}

abbrev requests : Reach fresh_install opened
requests = opens_room (codes "r1") (codes "m1") student room_in refl refl (
    asks_for_problem loading seed_ids student (codes "two-sum") (refl, refl, refl)
      (registers plain (codes "u1") [] user_in refl (refl, refl) here))

Reach-IsGateway_example : IsGateway opened
Reach-IsGateway_example = Reach-IsGateway fresh_install-IsGateway requests

Reach-answers_example :
    (is_500
        (get_problem_endpoint loading seed_ids student (codes "two-sum") registered_one.catalog).0
      ≡ false)
    × (is_500 (get_room_endpoint (codes "r1") registered_one.tables) ≡ false)
    × (is_500 (join_room_endpoint (codes "m2") (codes "r1") student registered_one.tables).0
        ≡ false)
    × (is_500 (register plain (codes "u2") [] other registered_one.accounts).0 ≡ false)
unfolding register create_user
Reach-answers_example =
    Reach-answers fresh_install registered_one fresh_install-IsGateway
      (registers plain (codes "u1") [] user_in refl (refl, refl) here) loading seed_ids student
      (codes "two-sum") (codes "r1") (codes "m2") plain (codes "u2") [] other (refl, refl, refl)
      refl (refl, refl)

abbrev program : SubmissionCreate
program = record {
  language = codes "python";
  source_code = [];
  stdin_data = none;
  timeout_seconds = none;
}

-- Two rows of the student, and one of somebody else between them.
abbrev history : List (Submission ℕ)
history =
    pending (codes "s1") (codes "u1") program
    ∷ pending (codes "s2") (codes "u2") program
    ∷ pending (codes "s3") (codes "u1") program
    ∷ []
