-- ===== src/Backend/Rooms.antt =====
-- backend/app/services/room_service.py: `RoomService` on the tables `rooms` and `room_members`
-- (backend/app/models/room.py), one call after the other. A new row gets the identifier that the
-- database gives it, and `order_by(Room.created_at.desc())` is an argument.
pub mod Members
pub mod Race
use secure_remote_code_execu.Prelude.{
  ℕ, Bool, true, false, Option, none, some, ◌&&◌, List, [], ◌∷◌, ◌++◌, map, length, keep_if, ◌==◌,
  list_eq, nat_eq, if◌then◌else◌, Result, ok, err, ◌>>=◌,
}
use secure_remote_code_execu.Prelude.Texts.{Text, codes}
use secure_remote_code_execu.Backend.Query.{scalar_one_or_none, paginate}

pub record Room : Type 0 where
  pub id : Text
  pub name : Text
  pub owner_id : Text
  pub language : Text
  pub current_code : Text
  pub is_active : Bool
  pub max_members : ℕ

pub record RoomMember : Type 0 where
  pub id : Text
  pub room_id : Text
  pub user_id : Text
  pub role : Text

pub record RoomCreate : Type 0 where
  pub name : Text
  pub language : Text
  pub initial_code : Text
  pub max_members : ℕ

pub record Tables : Type 0 where
  pub rooms : List Room
  pub members : List RoomMember

abbrev pub is_member : Text → Text → RoomMember → Bool
is_member room_id user_id m = (m.room_id == room_id) && (m.user_id == user_id)

-- `create_room`; the two identifiers are those of the new rows.
unfoldable pub create_room : Text → Text → Text → RoomCreate → Tables → Room × Tables
create_room room_id member_id owner_id room_in db =
    let room : Room = record {
      id = room_id;
      name = room_in.name;
      owner_id = owner_id;
      language = room_in.language;
      current_code = room_in.initial_code;
      is_active = true;
      max_members = room_in.max_members;
    } in
    let member : RoomMember = record {
      id = member_id;
      room_id = room_id;
      user_id = owner_id;
      role = codes "owner";
    } in
    (room, record { rooms = db.rooms ++ room ∷ []; members = db.members ++ member ∷ [] })

unfoldable pub get_room : Text → Tables → Result Text (Option Room)
get_room room_id db = scalar_one_or_none (keep_if (λ r. r.id == room_id) db.rooms)

unfoldable pub list_rooms : (List Room → List Room) → ℕ → ℕ → Tables → List Room × ℕ
list_rooms newest_first page page_size db =
    let active = keep_if (λ r. r.is_active) db.rooms in
    (paginate page page_size (newest_first active), length active)

abbrev pub set_code : Text → Text → Room → Room
set_code room_id new_code r = if r.id == room_id then record r { current_code = new_code } else r

abbrev pub save_code : Text → Text → Tables → Option Room → Option Room × Tables
save_code room_id new_code db none = (none, db)
save_code room_id new_code db (some r) = (
  some (record r { current_code = new_code }),
  record db { rooms = map (set_code room_id new_code) db.rooms },
)

unfoldable pub update_room_code : Text → Text → Tables → Result Text (Option Room × Tables)
update_room_code room_id new_code db =
    get_room room_id db >>= λ room. ok (save_code room_id new_code db room)

abbrev pub enroll : RoomMember → Tables → Option RoomMember → RoomMember × Tables
enroll member db (some existing) = (existing, db)
enroll member db none = (member, record db { members = db.members ++ member ∷ [] })

abbrev pub new_member : Text → Text → Text → Text → RoomMember
new_member member_id room_id user_id role = record {
  id = member_id;
  room_id = room_id;
  user_id = user_id;
  role = role;
}

unfoldable pub join_room : Text → Text → Text → Text → Tables → Result Text (RoomMember × Tables)
join_room member_id room_id user_id role db =
    scalar_one_or_none (keep_if (is_member room_id user_id) db.members) >>= λ existing.
    ok (enroll (new_member member_id room_id user_id role) db existing)
