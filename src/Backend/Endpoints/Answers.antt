-- ===== src/Backend/Endpoints/Answers.antt =====
-- That no request to the gateway fails because of what is in its tables.
use secure_remote_code_execu.Prelude.{
  ◌≡◌, refl, ap, ◌∙◌, Bool, false, Bool-cases, inl, inr, Option, none, some, List, [], keep_if,
  ◌==◌, list_eq, nat_eq, Result, ok,
}
use secure_remote_code_execu.Prelude.Texts.{Text, codes}
use secure_remote_code_execu.Database.{User}
use secure_remote_code_execu.Backend.Query.{with_key, scalar_one_or_none-IsOk}
use secure_remote_code_execu.Backend.Rooms.{Room, get_room}
use secure_remote_code_execu.Backend.Rooms.Members.{join_room-Joined}
use secure_remote_code_execu.Backend.Submissions.{is_admin}
use secure_remote_code_execu.Backend.Problems.{
  Problem, Catalog, Loading, detail_found, find_problem, get_problem_by_id_or_slug,
}
use secure_remote_code_execu.Backend.Problems.Unique.{find_problem-IsOk}
use secure_remote_code_execu.Backend.Problems.Seed.{
  SeedIds, IsDistinct, seed_default_problems_if_empty, seed_default_problems_if_empty-once,
}
use secure_remote_code_execu.Backend.Users.{
  Bcrypt, UserCreate, Response, answered, refused, register,
}
use secure_remote_code_execu.Backend.Users.Accounts.{
  id_of, IsNamed, Registered, taken, registered, register-Registered,
}
use secure_remote_code_execu.Backend.Endpoints.{
  found_or_404, get_problem_endpoint, get_room_endpoint, joined_or_500, join_found,
  join_room_endpoint,
}
use secure_remote_code_execu.Backend.Endpoints.Invariant.{
  Gateway, IsGateway, Reach, Reach-IsGateway,
}

abbrev pub is_500 : {A : Type 0} → Response A → Bool
is_500 (answered code a) = false
is_500 (refused code) = code == 500

found-not_500 :
    {A : Type 0} (r : Result Text (Option A))
    → (o : Option A) × (r ≡ ok o)
    → is_500 (found_or_404 r) ≡ false
found-not_500 r (none, e) = ap (λ x. is_500 (found_or_404 x)) e
found-not_500 r (some a, e) = ap (λ x. is_500 (found_or_404 x)) e

detail-not_500 :
    (l : Loading) (hidden : Bool) (c : Catalog) (r : Result Text (Option Problem))
    → (o : Option Problem) × (r ≡ ok o)
    → is_500 (found_or_404 (detail_found l hidden c r)) ≡ false
detail-not_500 l hidden c r (none, e) =
    ap (λ x. is_500 (found_or_404 (detail_found l hidden c x))) e
detail-not_500 l hidden c r (some p, e) =
    ap (λ x. is_500 (found_or_404 (detail_found l hidden c x))) e

register-not_500 :
    {b : Bcrypt} {id salt : Text} {user_in : UserCreate} {users : List User}
    (r : Response User × List User)
    → Registered b id salt user_in users r
    → is_500 r.0 ≡ false
register-not_500 r (taken t e) = ap (λ x. is_500 x.0) e
register-not_500 r (registered f k e i) = ap (λ x. is_500 x.0) e

module _ (start g : Gateway) (h : IsGateway start) (reach : Reach start g) where
  join-not_500 :
      (member_id room_id : Text) (u : User) (r : Result Text (Option Room))
      → (o : Option Room) × (r ≡ ok o)
      → is_500 (join_found member_id room_id u g.tables r).0 ≡ false
  join-not_500 member_id room_id u r (none, e) =
      ap (λ x. is_500 (join_found member_id room_id u g.tables x).0) e
  join-not_500 member_id room_id u r (some room, e) =
      ap (λ x. is_500 (join_found member_id room_id u g.tables x).0) e
      ∙ elim (Bool-cases room.is_active) [
        | inl y ↦ simp (y) (
            ap (λ x. is_500 (joined_or_500 g.tables x).0)
              (join_room-Joined member_id room_id u.id (codes "editor") g.tables
                (Reach-IsGateway h reach).members).returned)
        | inr n ↦ simp (n) refl
      ]

  -- From tables where identifiers and names are unique, after any requests, in any order and each
  -- behind the one before: asking for a problem by whatever identifier, asking for a room, joining it,
  -- and registering with a new identifier and names as the schema wants them are not answered with 500.
  pub Reach-answers :
      (l : Loading) (ids : SeedIds) (u : User) (identifier room_id member_id : Text) (b : Bcrypt)
      (id salt : Text) (user_in : UserCreate)
      → IsDistinct ids
      → with_key id_of id g.accounts ≡ []
      → IsNamed user_in.username user_in.email
      → (is_500 (get_problem_endpoint l ids u identifier g.catalog).0 ≡ false)
        × (is_500 (get_room_endpoint room_id g.tables) ≡ false)
        × (is_500 (join_room_endpoint member_id room_id u g.tables).0 ≡ false)
        × (is_500 (register b id salt user_in g.accounts).0 ≡ false)
  unfolding get_problem_endpoint get_room_endpoint join_room_endpoint get_problem_by_id_or_slug
      get_room
  Reach-answers l ids u identifier room_id member_id b id salt user_in distinct fresh named =
      let i = Reach-IsGateway h reach in
      let seeded = seed_default_problems_if_empty ids g.catalog in
      let room =
        scalar_one_or_none-IsOk (keep_if (λ r. r.id == room_id) g.tables.rooms) (i.rooms room_id) in
      (
        detail-not_500 l (is_admin u) seeded (find_problem l identifier seeded) (
            find_problem-IsOk l identifier seeded
              (seed_default_problems_if_empty-once ids ids g.catalog distinct i.catalog).0),
        found-not_500 _ room,
        join-not_500 member_id room_id u _ room,
        register-not_500 (register b id salt user_in g.accounts)
            (register-Registered b id salt user_in g.accounts i.accounts fresh named),
      )
