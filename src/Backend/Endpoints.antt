-- ===== src/Backend/Endpoints.antt =====
-- backend/app/api/v1/endpoints/problems.py, rooms.py and submissions.py: the status codes that the
-- endpoints give to what the services do. The current user is who the guards of the API let through;
-- an exception that is not an `HTTPException` is answered with 500.
pub mod Kept
pub mod Invariant
pub mod Answers
pub mod Grades
mod Tests
use secure_remote_code_execu.Prelude.{
  ℕ, Bool, true, false, not, Option, none, some, List, [], ◌∷◌, ◌++◌, ◌==◌, list_eq, nat_eq,
  if◌then◌else◌, leb, ◌&&◌, Result, ok, err,
}
use secure_remote_code_execu.Prelude.Texts.{Text, codes}
use secure_remote_code_execu.Database.{User, Submission}
use secure_remote_code_execu.Grading.Models.{GradingSummary}
use secure_remote_code_execu.Backend.Rooms.{
  Room, RoomMember, RoomCreate, Tables, create_room, get_room, list_rooms, update_room_code,
  join_room,
}
use secure_remote_code_execu.Backend.Submissions.{
  is_admin, Settings, Task, SubmissionCreate, Store, create_submission, get_submission,
  list_submissions,
}
use secure_remote_code_execu.Backend.Problems.{
  Problem, Catalog, ProblemCreate, ProblemDetailRead, Loading, get_problem_by_id_or_slug,
  create_problem, ProblemRead, list_problems,
}
use secure_remote_code_execu.Backend.Problems.Seed.{SeedIds, seed_default_problems_if_empty}
use secure_remote_code_execu.Backend.Problems.Grade.{
  get_grading_scorecard, Graded, GradingSubmissionCreate, submit_and_grade_problem,
}
use secure_remote_code_execu.Grading.Floats.{Floats}
use secure_remote_code_execu.Sandbox.Models.{ExecutionRequest, ExecutionResult}
use secure_remote_code_execu.Backend.Users.{Response, answered, refused}

-- `if not found: raise HTTPException(404)`
abbrev pub found_or_404 : {A : Type 0} → Result Text (Option A) → Response A
found_or_404 (err e) = refused 500
found_or_404 (ok none) = refused 404
found_or_404 (ok (some a)) = answered 200 a

-- problems.py: `get_problem`, with the catalog after seeding
unfoldable pub get_problem_endpoint :
    Loading → SeedIds → User → Text → Catalog → Response ProblemDetailRead × Catalog
get_problem_endpoint l ids u identifier c =
    let seeded = seed_default_problems_if_empty ids c in
    (found_or_404 (get_problem_by_id_or_slug l identifier (is_admin u) seeded), seeded)

-- `if not result: raise HTTPException(500)`
abbrev pub created_or_500 : Result Text (Option ProblemDetailRead) → Response ProblemDetailRead
created_or_500 (err e) = refused 500
created_or_500 (ok none) = refused 500
created_or_500 (ok (some d)) = answered 201 d

abbrev pub read_created :
    Loading → Catalog → Result Text (Problem × Catalog) → Response ProblemDetailRead × Catalog
read_created l c (err e) = (refused 500, c)
read_created l c (ok (p, c')) = (created_or_500 (get_problem_by_id_or_slug l p.id true c'), c')

abbrev pub create_unless :
    Loading
    → Text
    → (ℕ → Text)
    → ProblemCreate
    → Catalog
    → Result Text (Option ProblemDetailRead)
    → Response ProblemDetailRead × Catalog
create_unless l id case_id problem_in c (err e) = (refused 500, c)
create_unless l id case_id problem_in c (ok (some existing)) = (refused 400, c)
create_unless l id case_id problem_in c (ok none) =
    read_created l c (create_problem id case_id problem_in c)

-- problems.py: `create_problem`, behind the guard for administrators
unfoldable pub create_problem_endpoint :
    Loading
    → Text
    → (ℕ → Text)
    → User
    → ProblemCreate
    → Catalog
    → Response ProblemDetailRead × Catalog
create_problem_endpoint l id case_id u problem_in c =
    if not (is_admin u)
    then (refused 403, c)
    else create_unless l id case_id problem_in c
        (get_problem_by_id_or_slug l problem_in.slug true c)

-- problems.py: `get_grading_result`
unfoldable pub get_grading_result_endpoint :
    {Float : Type 0} → Text → User → List (Submission Float) → Response (GradingSummary Float)
get_grading_result_endpoint id u rows = found_or_404 (get_grading_scorecard id u rows)

-- submissions.py: `get_submission_details`
unfoldable pub get_submission_endpoint :
    {Float : Type 0} → Text → User → List (Submission Float) → Response (Submission Float)
get_submission_endpoint id u rows = found_or_404 (get_submission id u rows)

-- submissions.py: `submit_code`, past the rate limiter; `supported` is what the registry says of the
-- language. Where the server does not take the job, `pushed` is false: the row was committed before.
unfoldable pub submit_code_endpoint :
    {Float : Type 0}
    → (Task → Text)
    → Settings
    → Text
    → Bool
    → Bool
    → Text
    → User
    → SubmissionCreate
    → Store Float
    → Response (Submission Float) × Store Float
submit_code_endpoint dumps settings headers supported pushed id u sub_in s =
    let (submission, after) = create_submission dumps settings headers true id u.id sub_in s in
    if not supported
    then (refused 400, s)
    else if pushed
    then (answered 202 submission, after)
    else (refused 500, record s { submissions = after.submissions })

-- `Query(ge=1)` of a page and its size; a request that does not meet it is answered with 422.
abbrev pub is_page : ℕ → ℕ → ℕ → Bool
is_page most page page_size = leb 1 page && (leb 1 page_size && leb page_size most)

-- `SubmissionListResponse`, `RoomListResponse`
pub record Page (A : Type 0) : Type 0 where
  pub items : List A
  pub total : ℕ
  pub page : ℕ
  pub page_size : ℕ

abbrev pub page_of : {A : Type 0} → ℕ → ℕ → List A × ℕ → Page A
page_of page page_size (items, total) = record {
  items = items;
  total = total;
  page = page;
  page_size = page_size;
}

-- submissions.py: `list_user_submissions`
unfoldable pub list_user_submissions :
    {Float : Type 0}
    → (List (Submission Float) → List (Submission Float))
    → User
    → ℕ
    → ℕ
    → List (Submission Float)
    → Response (Page (Submission Float))
unfolding list_submissions
list_user_submissions newest_first u page page_size rows =
    if is_page 100 page page_size
    then answered 200 (page_of page page_size (list_submissions newest_first u page page_size rows))
    else refused 422

-- rooms.py: `list_rooms`
unfoldable pub list_rooms_endpoint : (List Room → List Room) → ℕ → ℕ → Tables → Response (Page Room)
unfolding list_rooms
list_rooms_endpoint newest_first page page_size db =
    if is_page 50 page page_size
    then answered 200 (page_of page page_size (list_rooms newest_first page page_size db))
    else refused 422

-- problems.py: `list_problems`, with the catalog after seeding
unfoldable pub list_problems_endpoint :
    Loading → SeedIds → Option Text → ℕ → ℕ → Catalog → Response (List ProblemRead) × Catalog
list_problems_endpoint l ids difficulty skip limit c =
    let seeded = seed_default_problems_if_empty ids c in
    if leb 1 limit && leb limit 100
    then (answered 200 (list_problems l difficulty skip limit seeded), seeded)
    else (refused 422, c)

-- problems.py: what `submit_for_grading` answers. A `ValidationError` is a `ValueError` as well.
abbrev pub is_value_error : Text → Bool
is_value_error e = not (e == codes "MultipleResultsFound")

abbrev pub graded_or_404 :
    {Float W : Type 0}
    → Result Text (Submission Float × GradingSummary Float × W)
    → Response (GradingSummary Float)
graded_or_404 (ok (s, scorecard, w)) = answered 200 scorecard
graded_or_404 (err e) = refused (if is_value_error e then 404 else 500)

-- The answer, with the table and the catalog after it.
pub record Posted (Float : Type 0) : Type 0 where
  pub answer : Response (GradingSummary Float)
  pub rows : List (Submission Float)
  pub catalog : Catalog

abbrev pub posted : {Float W : Type 0} → Catalog → Graded Float W → Posted Float
posted seeded g = record { answer = graded_or_404 g.outcome; rows = g.rows; catalog = seeded }

-- problems.py: `submit_for_grading`
unfoldable pub submit_for_grading :
    (F : Floats)
    → (List Text → List Text → List Text)
    → {W : Type 0} → (ExecutionRequest → W → Result Text ExecutionResult × W)
    → Loading
    → SeedIds
    → Text
    → User
    → Text
    → GradingSubmissionCreate
    → Catalog
    → List (Submission F.Float)
    → W
    → Posted F.Float
submit_for_grading F unified_diff execute l ids id u identifier sub_in c rows w =
    let seeded = seed_default_problems_if_empty ids c in
    posted seeded (
      submit_and_grade_problem F unified_diff execute l id u.id identifier sub_in (is_admin u)
        seeded rows w)

-- rooms.py: `create_room`
unfoldable pub create_room_endpoint :
    Text → Text → User → RoomCreate → Tables → Response Room × Tables
create_room_endpoint room_id member_id u room_in db =
    let (room, after) = create_room room_id member_id u.id room_in db in (answered 201 room, after)

-- rooms.py: `get_room`
unfoldable pub get_room_endpoint : Text → Tables → Response Room
get_room_endpoint room_id db = found_or_404 (get_room room_id db)

abbrev pub joined_or_500 : Tables → Result Text (RoomMember × Tables) → Response RoomMember × Tables
joined_or_500 db (err e) = (refused 500, db)
joined_or_500 db (ok (m, after)) = (answered 200 m, after)

abbrev pub join_found :
    Text → Text → User → Tables → Result Text (Option Room) → Response RoomMember × Tables
join_found member_id room_id u db (err e) = (refused 500, db)
join_found member_id room_id u db (ok none) = (refused 404, db)
join_found member_id room_id u db (ok (some room)) =
    if not room.is_active
    then (refused 404, db)
    else joined_or_500 db (join_room member_id room_id u.id (codes "editor") db)

-- rooms.py: `join_room`
unfoldable pub join_room_endpoint : Text → Text → User → Tables → Response RoomMember × Tables
join_room_endpoint member_id room_id u db = join_found member_id room_id u db (get_room room_id db)

abbrev pub updated_or_404 : Tables → Result Text (Option Room × Tables) → Response Room × Tables
updated_or_404 db (err e) = (refused 500, db)
updated_or_404 db (ok (none, after)) = (refused 404, after)
updated_or_404 db (ok (some room, after)) = (answered 200 room, after)

-- rooms.py: `update_room_code`, which any user may call for any room
unfoldable pub update_room_code_endpoint : Text → Text → Tables → Response Room × Tables
update_room_code_endpoint room_id new_code db =
    updated_or_404 db (update_room_code room_id new_code db)
