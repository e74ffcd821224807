-- ===== src/Backend/Endpoints/Invariant.antt =====
-- What requests to the gateway keep true of its tables, in any order.
use mathlib.Core.Path.{subst}
use secure_remote_code_execu.Prelude.{
  ℕ, ◌≡◌, sym, true, Bool-cases, inl, inr, Option, none, some, List, [], list_eq, nat_eq, Result,
  ok, err,
}
use secure_remote_code_execu.Prelude.Texts.{Text}
use secure_remote_code_execu.Database.{User}
use secure_remote_code_execu.Backend.Query.{with_key, IsUniqueKey}
use secure_remote_code_execu.Backend.Rooms.{RoomCreate, Tables, get_room, update_room_code}
use secure_remote_code_execu.Backend.Rooms.Members.{rows, IsUnique}
use secure_remote_code_execu.Backend.Submissions.{is_admin}
use secure_remote_code_execu.Backend.Problems.{
  Problem, Catalog, ProblemCreate, ProblemDetailRead, Loading, get_problem_by_id_or_slug,
  create_problem,
}
use secure_remote_code_execu.Backend.Problems.Unique.{
  IsCatalog, Created, taken, created, id_of, create_problem-Created,
}
use secure_remote_code_execu.Backend.Problems.Seed.{
  SeedIds, IsDistinct, seed_default_problems_if_empty-once,
}
use secure_remote_code_execu.Backend.Users.{Bcrypt, UserCreate, Response, register}
use secure_remote_code_execu.Backend.Users.Accounts
use secure_remote_code_execu.Backend.Users.Accounts.{
  IsAccounts, IsNamed, Registered, registered, register-Registered,
}
use secure_remote_code_execu.Backend.Endpoints.{
  get_problem_endpoint, read_created, create_unless, create_problem_endpoint, create_room_endpoint,
  join_room_endpoint, update_room_code_endpoint,
}
use secure_remote_code_execu.Backend.Endpoints.Kept.{
  room_key, join_found-IsRooms, save_code-IsRooms, create_room-IsRooms,
}

-- The tables that the requests below change.
pub record Gateway : Type 0 where
  pub accounts : List User
  pub catalog : Catalog
  pub tables : Tables

pub record IsGateway (g : Gateway) : Type 0 where
  pub accounts : IsAccounts g.accounts
  pub catalog : IsCatalog g.catalog
  pub members : IsUnique g.tables
  pub rooms : IsUniqueKey room_key g.tables.rooms

-- The states that requests lead to, in any order; new rows get identifiers that no row has.
pub data Reach (start : Gateway) : Gateway → Type 0 where
  here : Reach start start
  registers :
      {g : Gateway} (b : Bcrypt) (id salt : Text) (user_in : UserCreate)
      → with_key Accounts.id_of id g.accounts ≡ []
      → IsNamed user_in.username user_in.email
      → Reach start g
      → Reach start (record g { accounts = (register b id salt user_in g.accounts).1 })
  asks_for_problem :
      {g : Gateway} (l : Loading) (ids : SeedIds) (u : User) (identifier : Text)
      → IsDistinct ids
      → Reach start g
      → Reach start (record g { catalog = (get_problem_endpoint l ids u identifier g.catalog).1 })
  posts_problem :
      {g : Gateway} (l : Loading) (id : Text) (case_id : ℕ → Text) (u : User)
      (problem_in : ProblemCreate)
      → with_key id_of id g.catalog.problems ≡ []
      → Reach start g
      → Reach start
          (record g { catalog = (create_problem_endpoint l id case_id u problem_in g.catalog).1 })
  opens_room :
      {g : Gateway} (room_id member_id : Text) (u : User) (room_in : RoomCreate)
      → with_key room_key room_id g.tables.rooms ≡ []
      → rows room_id u.id g.tables ≡ 0
      → Reach start g
      → Reach start
          (record g { tables = (create_room_endpoint room_id member_id u room_in g.tables).1 })
  joins_room :
      {g : Gateway} (member_id room_id : Text) (u : User)
      → Reach start g
      → Reach start (record g { tables = (join_room_endpoint member_id room_id u g.tables).1 })
  saves_code :
      {g : Gateway} (room_id new_code : Text)
      → Reach start g
      → Reach start (record g { tables = (update_room_code_endpoint room_id new_code g.tables).1 })

register-IsAccounts :
    {b : Bcrypt} {id salt : Text} {user_in : UserCreate} {users : List User}
    {r : Response User × List User}
    → IsAccounts users
    → Registered b id salt user_in users r
    → IsAccounts r.1
register-IsAccounts h (Accounts.taken t e) = subst (λ r. IsAccounts r.1) (sym e) h
register-IsAccounts h (registered f k e i) = subst (λ r. IsAccounts r.1) (sym e) i

read_created-IsCatalog :
    (l : Loading) (c : Catalog) (problem_in : ProblemCreate) (r : Result Text (Problem × Catalog))
    → IsCatalog c
    → Created c problem_in r
    → IsCatalog (read_created l c r).1
read_created-IsCatalog l c problem_in r h (taken t e) =
    subst (λ r. IsCatalog (read_created l c r).1) (sym e) h
read_created-IsCatalog l c problem_in r h (created p c' e added i) =
    subst (λ r. IsCatalog (read_created l c r).1) (sym e) i

create_unless-IsCatalog :
    (l : Loading) (id : Text) (case_id : ℕ → Text) (problem_in : ProblemCreate) (c : Catalog)
    (o : Result Text (Option ProblemDetailRead))
    → with_key id_of id c.problems ≡ []
    → IsCatalog c
    → IsCatalog (create_unless l id case_id problem_in c o).1
create_unless-IsCatalog l id case_id problem_in c (err e) fresh h = h
create_unless-IsCatalog l id case_id problem_in c (ok (some d)) fresh h = h
create_unless-IsCatalog l id case_id problem_in c (ok none) fresh h =
    read_created-IsCatalog l c problem_in (create_problem id case_id problem_in c) h
      (create_problem-Created id case_id problem_in c h fresh)

create_problem_endpoint-IsCatalog :
    (l : Loading) (id : Text) (case_id : ℕ → Text) (u : User) (problem_in : ProblemCreate)
    (c : Catalog)
    → with_key id_of id c.problems ≡ []
    → IsCatalog c
    → IsCatalog (create_problem_endpoint l id case_id u problem_in c).1
unfolding create_problem_endpoint
create_problem_endpoint-IsCatalog l id case_id u problem_in c fresh h =
    elim (Bool-cases (is_admin u)) [
      | inl y ↦ simp (y) (
          create_unless-IsCatalog l id case_id problem_in c
            (get_problem_by_id_or_slug l problem_in.slug true c) fresh h)
      | inr n ↦ simp (n) h
    ]

-- From tables where they are so: after any requests, each behind the one before and in any order,
-- identifiers, usernames and emails of accounts are unique, identifiers and slugs of problems are, identifiers of rooms are, and no user
-- has two rows in a room.
pub Reach-IsGateway : {start g : Gateway} → IsGateway start → Reach start g → IsGateway g
unfolding get_problem_endpoint join_room_endpoint update_room_code_endpoint update_room_code
Reach-IsGateway h here = h
Reach-IsGateway h (registers {g} b id salt user_in fresh named r) =
    let i = Reach-IsGateway h r in
    record {
      catalog = i.catalog;
      members = i.members;
      rooms = i.rooms;
      accounts =
          register-IsAccounts i.accounts
            (register-Registered b id salt user_in g.accounts i.accounts fresh named);
    }
Reach-IsGateway h (asks_for_problem {g} l ids u identifier distinct r) =
    let i = Reach-IsGateway h r in
    record {
      accounts = i.accounts;
      members = i.members;
      rooms = i.rooms;
      catalog = (seed_default_problems_if_empty-once ids ids g.catalog distinct i.catalog).0;
    }
Reach-IsGateway h (posts_problem {g} l id case_id u problem_in fresh r) =
    let i = Reach-IsGateway h r in
    record {
      accounts = i.accounts;
      members = i.members;
      rooms = i.rooms;
      catalog =
          create_problem_endpoint-IsCatalog l id case_id u problem_in g.catalog fresh i.catalog;
    }
Reach-IsGateway h (opens_room {g} room_id member_id u room_in fresh none_yet r) =
    let i = Reach-IsGateway h r in
    let k =
      create_room-IsRooms room_id member_id u room_in g.tables fresh none_yet
        (record { members = i.members; rooms = i.rooms }) in
    record { accounts = i.accounts; catalog = i.catalog; members = k.members; rooms = k.rooms }
Reach-IsGateway h (joins_room {g} member_id room_id u r) =
    let i = Reach-IsGateway h r in
    let k =
      join_found-IsRooms member_id room_id u g.tables (get_room room_id g.tables)
        (record { members = i.members; rooms = i.rooms }) in
    record { accounts = i.accounts; catalog = i.catalog; members = k.members; rooms = k.rooms }
Reach-IsGateway h (saves_code {g} room_id new_code r) =
    let i = Reach-IsGateway h r in
    let k =
      save_code-IsRooms room_id new_code g.tables (get_room room_id g.tables)
        (record { members = i.members; rooms = i.rooms }) in
    record { accounts = i.accounts; catalog = i.catalog; members = k.members; rooms = k.rooms }
