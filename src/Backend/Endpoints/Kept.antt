-- ===== src/Backend/Endpoints/Kept.antt =====
-- What requests for rooms keep true of the tables of rooms.
use mathlib.Core.Path.{subst}
use secure_remote_code_execu.Prelude.{
  suc, ◌≡◌, refl, ap, sym, Bool-cases, inl, inr, Option, none, some, List, [], ◌∷◌, length, map,
  keep_if, ◌==◌, list_eq, nat_eq, Result, ok, err, arith, ◌>>=◌,
}
use secure_remote_code_execu.Prelude.Texts.{Text, codes}
use secure_remote_code_execu.Database.{User}
use secure_remote_code_execu.Backend.Query.{
  scalar_one_or_none, with_key, IsUniqueKey, IsUniqueKey-append,
}
use secure_remote_code_execu.Backend.Rooms.{
  Room, RoomMember, RoomCreate, Tables, create_room, set_code, save_code, is_member, enroll,
  new_member, join_room,
}
use secure_remote_code_execu.Backend.Rooms.Members.{
  rows, IsUnique, join_room-Joined, create_room-enrolls,
}
use secure_remote_code_execu.Backend.Endpoints.{
  create_room_endpoint, joined_or_500, join_found, updated_or_404,
}

abbrev pub room_key : Room → Text
room_key r = r.id

-- Of the rooms: no two have the same identifier, and no user has two rows in one.
pub record IsRooms (db : Tables) : Type 0 where
  pub members : IsUnique db
  pub rooms : IsUniqueKey room_key db.rooms

enroll-rooms :
    (m : RoomMember) (db : Tables) (o : Result Text (Option RoomMember))
    → (joined_or_500 db (o >>= λ existing. ok (enroll m db existing))).1.rooms ≡ db.rooms
enroll-rooms m db (err e) = refl
enroll-rooms m db (ok none) = refl
enroll-rooms m db (ok (some existing)) = refl

joined-IsRooms :
    (member_id room_id user_id role : Text) (db : Tables)
    → IsRooms db
    → IsRooms (joined_or_500 db (join_room member_id room_id user_id role db)).1
unfolding join_room
joined-IsRooms member_id room_id user_id role db h =
    let joined = join_room-Joined member_id room_id user_id role db h.members in
    record {
      members = subst (λ r. IsUnique (joined_or_500 db r).1) (sym joined.returned) joined.unique;
      rooms =
          subst (IsUniqueKey room_key)
            (sym (
              enroll-rooms (new_member member_id room_id user_id role) db
                (scalar_one_or_none (keep_if (is_member room_id user_id) db.members))))
            h.rooms;
    }

pub join_found-IsRooms :
    (member_id room_id : Text) (u : User) (db : Tables) (o : Result Text (Option Room))
    → IsRooms db
    → IsRooms (join_found member_id room_id u db o).1
join_found-IsRooms m r u db (err e) h = h
join_found-IsRooms m r u db (ok none) h = h
join_found-IsRooms m r u db (ok (some room)) h = elim (Bool-cases room.is_active) [
  | inl y ↦ simp (y) (joined-IsRooms m r u.id (codes "editor") db h)
  | inr n ↦ simp (n) h
]

-- Saving code keeps the identifiers.
set_code-id : (room_id new_code : Text) (r : Room) → (set_code room_id new_code r).id ≡ r.id
set_code-id room_id new_code r = elim (Bool-cases (r.id == room_id)) [
  | inl t ↦ simp (t) refl
  | inr f ↦ simp (f) refl
]

length-set_code :
    (k room_id new_code : Text) (rs : List Room)
    → length (with_key room_key k (map (set_code room_id new_code) rs))
      ≡ length (with_key room_key k rs)
length-set_code k room_id new_code [] = refl
length-set_code k room_id new_code (r ∷ rs) =
    let same = set_code-id room_id new_code r in
    elim (Bool-cases (r.id == k)) [
      | inl t ↦ simp (same, t) (ap suc (length-set_code k room_id new_code rs))
      | inr f ↦ simp (same, f) (length-set_code k room_id new_code rs)
    ]

pub save_code-IsRooms :
    (room_id new_code : Text) (db : Tables) (o : Result Text (Option Room))
    → IsRooms db
    → IsRooms (updated_or_404 db (o >>= λ room. ok (save_code room_id new_code db room))).1
save_code-IsRooms room_id new_code db (err e) h = h
save_code-IsRooms room_id new_code db (ok none) h = h
save_code-IsRooms room_id new_code db (ok (some r)) h = record {
  members = h.members;
  rooms = λ k. omega (arith, length-set_code k room_id new_code db.rooms, h.rooms k);
}

pub create_room-IsRooms :
    (room_id member_id : Text) (u : User) (room_in : RoomCreate) (db : Tables)
    → with_key room_key room_id db.rooms ≡ []
    → rows room_id u.id db ≡ 0
    → IsRooms db
    → IsRooms (create_room_endpoint room_id member_id u room_in db).1
unfolding create_room_endpoint create_room
create_room-IsRooms room_id member_id u room_in db fresh none_yet h = record {
  members = (create_room-enrolls room_id member_id u.id room_in db h.members none_yet).0;
  rooms = IsUniqueKey-append room_key db.rooms _ h.rooms fresh;
}
