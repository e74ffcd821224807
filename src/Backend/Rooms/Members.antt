-- ===== src/Backend/Rooms/Members.antt =====
-- Who is a member of a room.
use secure_remote_code_execu.Prelude.{
  ℕ, ◌+◌, ◌≤◌, ◌≡◌, ◌↔◌, refl, ap, ◌∙◌, Bool, true, false, Bool-cases, inl, inr, List, [], ◌∷◌,
  ◌++◌, length, length-append, keep_if, ◌==◌, list_eq, nat_eq, eq_iff, eq_refl, Result, ok, err,
  arith,
}
use secure_remote_code_execu.Prelude.Texts.{Text, codes}
use secure_remote_code_execu.Backend.Query.{keep_if-append}
use secure_remote_code_execu.Backend.Rooms.{
  RoomMember, RoomCreate, Tables, is_member, create_room, new_member, join_room,
}

-- The rows of a user in a room.
abbrev pub rows : Text → Text → Tables → ℕ
rows room_id user_id db = length (keep_if (is_member room_id user_id) db.members)

-- No user has two rows in a room.
abbrev pub IsUnique : Tables → Type 0
IsUnique db = (room_id user_id : Text) → rows room_id user_id db ≤ 1

-- The tables after a call, and before it if it raised.
abbrev pub after : Tables → Result Text (RoomMember × Tables) → Tables
after db (ok r) = r.1
after db (err e) = db

one_if : Bool → ℕ
one_if true = 1
one_if false = 0

length-keep_if-one :
    {A : Type 0} (p : A → Bool) (x : A) → length (keep_if p (x ∷ [])) ≡ one_if (p x)
unfolding one_if
length-keep_if-one p x = elim (Bool-cases (p x)) [ inl t ↦ rw (t) refl | inr f ↦ rw (f) refl ]

-- Adding a row.
rows-append :
    (room_id user_id : Text) (m : RoomMember) (members : List RoomMember)
    → length (keep_if (is_member room_id user_id) (members ++ m ∷ []))
      ≡ length (keep_if (is_member room_id user_id) members) + one_if (is_member room_id user_id m)
rows-append room_id user_id m members =
    ap length (keep_if-append (is_member room_id user_id) members (m ∷ []))
    ∙ length-append (keep_if (is_member room_id user_id) members)
        (keep_if (is_member room_id user_id) (m ∷ []))
    ∙ ap (λ n. length (keep_if (is_member room_id user_id) members) + n)
        (length-keep_if-one (is_member room_id user_id) m)

is_member_iff :
    (r u : Text) (m : RoomMember) → (is_member r u m ≡ true) ↔ ((m.room_id ≡ r) × (m.user_id ≡ u))
is_member_iff r u m = ground (arith, eq_iff m.room_id r, eq_iff m.user_id u)

-- A new row for a user without one.
IsUnique-append :
    (m : RoomMember) (db : Tables)
    → IsUnique db
    → rows m.room_id m.user_id db ≡ 0
    → IsUnique (record db { members = db.members ++ m ∷ [] })
unfolding one_if
IsUnique-append m db h none_yet r u = elim (Bool-cases (is_member r u m)) [
  | inl t ↦
      let same : rows m.room_id m.user_id db ≡ rows r u db =
        ap (λ k. rows k m.user_id db) ((is_member_iff r u m).0 t).0
        ∙ ap (λ k. rows r k db) ((is_member_iff r u m).0 t).1 in
      omega (arith, rows-append r u m db.members, ap one_if t, same, none_yet)
  | inr f ↦ omega (arith, rows-append r u m db.members, ap one_if f, h r u)
]

-- The call returned, every user has one row at most in each room, and the user has one in this.
pub record Joined (room_id user_id : Text) (result : Result Text (RoomMember × Tables))
    : Type 0 where
  pub member : RoomMember
  pub tables : Tables
  pub returned : result ≡ ok (member, tables)
  pub unique : IsUnique tables
  pub enrolled : rows room_id user_id tables ≡ 1

module _ (member_id room_id user_id role : Text) (db : Tables) (h : IsUnique db) where
  join_from :
      (found : List RoomMember)
      → keep_if (is_member room_id user_id) db.members ≡ found
      → Joined room_id user_id (join_room member_id room_id user_id role db)
  unfolding join_room one_if
  join_from [] e =
      let m : RoomMember = new_member member_id room_id user_id role in
      record {
        member = m;
        tables = record db { members = db.members ++ m ∷ [] };
        returned = rw (e) refl;
        unique = IsUnique-append m db h (ap length e);
        enrolled = omega (
          arith,
          rows-append room_id user_id m db.members,
          ap length e,
          ap one_if ((is_member_iff room_id user_id m).1 (refl, refl)),
        );
      }
  join_from (x ∷ []) e = record {
    member = x;
    tables = db;
    returned = rw (e) refl;
    unique = h;
    enrolled = ap length e;
  }
  join_from (x ∷ (y ∷ rest)) e = absurd (omega (arith, h room_id user_id, ap length e))

  -- If no user has two rows in a room: joining a room returns and does not raise, whether the user is
  -- a member already or not; after it again no user has two rows in a room, and the user is a
  -- member of this one.
  pub join_room-Joined : Joined room_id user_id (join_room member_id room_id user_id role db)
  join_room-Joined = join_from (keep_if (is_member room_id user_id) db.members) refl

-- The members of a room.
abbrev pub member_count : Text → Tables → ℕ
member_count room_id db = length (keep_if (λ m. m.room_id == room_id) db.members)

-- A user who is not a member is enrolled and the room has one member more, whatever its
-- `max_members` is and however many members it has.
pub join_room_grows :
    (member_id room_id user_id role : Text) (db : Tables)
    → keep_if (is_member room_id user_id) db.members ≡ []
    → member_count room_id (after db (join_room member_id room_id user_id role db))
      ≡ member_count room_id db + 1
unfolding join_room one_if
join_room_grows member_id room_id user_id role db h =
    let m : RoomMember = new_member member_id room_id user_id role in
    rw (h) (
      ap length (keep_if-append (λ k. k.room_id == room_id) db.members (m ∷ []))
      ∙ length-append (keep_if (λ k. k.room_id == room_id) db.members)
          (keep_if (λ k. k.room_id == room_id) (m ∷ []))
      ∙ ap (λ n. member_count room_id db + n)
          (length-keep_if-one (λ k. k.room_id == room_id) m ∙ ap one_if (eq_refl room_id)))

-- If no user has two rows in a room, and the owner has none in a room with the new identifier: the
-- same holds after the room has been created, and the owner is a member of it.
pub create_room-enrolls :
    (room_id member_id owner_id : Text) (room_in : RoomCreate) (db : Tables)
    → IsUnique db
    → rows room_id owner_id db ≡ 0
    → IsUnique (create_room room_id member_id owner_id room_in db).1
      × (rows room_id owner_id (create_room room_id member_id owner_id room_in db).1 ≡ 1)
unfolding create_room one_if
create_room-enrolls room_id member_id owner_id room_in db h none_yet =
    let m : RoomMember = new_member member_id room_id owner_id (codes "owner") in
    (
      (λ r u. IsUnique-append m db h none_yet r u),
      omega (
        arith,
        rows-append room_id owner_id m db.members,
        none_yet,
        ap one_if ((is_member_iff room_id owner_id m).1 (refl, refl)),
      ),
    )
