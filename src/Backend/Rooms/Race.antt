-- ===== src/Backend/Rooms/Race.antt =====
-- backend/app/services/room_service.py: `join_room` by several requests of one user at once. No column
-- or index of `room_members` is unique, so the rows that they add all stay.
use secure_remote_code_execu.Prelude.{
  ◌+◌, ◌≤◌, ◌≡◌, refl, ap, ◌∙◌, Option, none, List, [], ◌∷◌, ◌++◌, length, length-append, keep_if,
  list_eq, nat_eq, eq_refl, Result, ok, err, ◌>>=◌, arith,
}
use secure_remote_code_execu.Prelude.Texts.{Text, codes}
use secure_remote_code_execu.Backend.Query.{scalar_one_or_none, keep_if-append}
use secure_remote_code_execu.Backend.Rooms.{
  RoomMember, Tables, is_member, enroll, new_member, join_room,
}
use secure_remote_code_execu.Backend.Rooms.Members.{rows}

module _ (room_id user_id role : Text) where
  -- The part of `join_room` before the first row is added: `existing`.
  unfoldable pub join_reads : Tables → Result Text (Option RoomMember)
  join_reads db = scalar_one_or_none (keep_if (is_member room_id user_id) db.members)

  -- The part behind it, of a request that read `existing`.
  unfoldable pub join_writes : Option RoomMember → Text → Tables → Tables
  join_writes existing member_id db =
      (enroll (new_member member_id room_id user_id role) db existing).1

  -- Requests of which the last reads before the first writes.
  unfoldable pub write_all : Option RoomMember → List Text → Tables → Tables
  unfolding join_writes
  write_all existing [] db = db
  write_all existing (id ∷ ids) db = write_all existing ids (join_writes existing id db)

  abbrev pub written_by : List Text → Tables → Result Text (Option RoomMember) → Tables
  written_by ids db (ok existing) = write_all existing ids db
  written_by ids db (err e) = db

  unfoldable pub join_together : List Text → Tables → Tables
  unfolding join_reads write_all
  join_together ids db = written_by ids db (join_reads db)

  -- One request is `join_room`.
  join_together-one :
      (id : Text) (db : Tables) (m : RoomMember) (after : Tables)
      → join_room id room_id user_id role db ≡ ok (m, after)
      → join_together (id ∷ []) db ≡ after
  unfolding join_room join_together
  join_together-one id db m after h = read_then_write (join_reads db) h
    where
      read_then_write :
          (r : Result Text (Option RoomMember))
          → (r >>= λ existing. ok (enroll (new_member id room_id user_id role) db existing))
            ≡ ok (m, after)
          → written_by (id ∷ []) db r ≡ after
      read_then_write (ok existing) e = ap (λ x. elim x [ ok y ↦ y.1 | err f ↦ db ]) e
      read_then_write (err f) e = absurd (cc e)

  rows-new_member :
      (id : Text) (members : List RoomMember)
      → length
          (keep_if (is_member room_id user_id) (members ++ new_member id room_id user_id role ∷ []))
        ≡ length (keep_if (is_member room_id user_id) members) + 1
  rows-new_member id members =
      let one : keep_if (is_member room_id user_id) (new_member id room_id user_id role ∷ [])
          ≡ new_member id room_id user_id role ∷ [] =
        simp (eq_refl room_id, eq_refl user_id) in
      ap length (
        keep_if-append (is_member room_id user_id) members
          (new_member id room_id user_id role ∷ []))
      ∙ length-append (keep_if (is_member room_id user_id) members)
          (keep_if (is_member room_id user_id) (new_member id room_id user_id role ∷ []))
      ∙ ap (λ l. length (keep_if (is_member room_id user_id) members) + length l) one

  rows-write_all :
      (ids : List Text) (db : Tables)
      → rows room_id user_id (write_all none ids db) ≡ rows room_id user_id db + length ids
  unfolding write_all join_writes
  rows-write_all [] db = omega arith
  rows-write_all (id ∷ ids) db =
      omega (arith, rows-write_all ids (join_writes none id db), rows-new_member id db.members)

  none_read : {A : Type 0} (xs : List A) → length xs ≡ 0 → scalar_one_or_none xs ≡ ok none
  none_read [] h = refl
  none_read (x ∷ xs) h = absurd (omega arith)

  many_read :
      {A : Type 0} (xs : List A)
      → 2 ≤ length xs
      → scalar_one_or_none xs ≡ err (codes "MultipleResultsFound")
  many_read [] h = absurd (omega arith)
  many_read (x ∷ []) h = absurd (omega arith)
  many_read (x ∷ (y ∷ xs)) h = refl

  together-writes :
      (ids : List Text) (db : Tables)
      → rows room_id user_id db ≡ 0
      → join_together ids db ≡ write_all none ids db
  unfolding join_together
  together-writes ids db h =
      ap (written_by ids db) (none_read (keep_if (is_member room_id user_id) db.members) h)

  -- For a user without a row in a room: of two or more requests to join it that all read before one
  -- of them writes, each adds a row; and from then on every request of the user to join the room
  -- raises.
  pub join_together-raises :
      (ids : List Text) (db : Tables) (member_id : Text)
      → rows room_id user_id db ≡ 0
      → 2 ≤ length ids
      → (rows room_id user_id (join_together ids db) ≡ length ids)
        × (join_room member_id room_id user_id role (join_together ids db)
            ≡ err (codes "MultipleResultsFound"))
  unfolding join_room
  join_together-raises ids db member_id h two =
      let added : rows room_id user_id (join_together ids db) ≡ length ids =
        ap (rows room_id user_id) (together-writes ids db h)
        ∙ omega (arith, rows-write_all ids db) in
      (
        added,
        ap
            (λ r. r >>= λ existing.
              ok (
                enroll (new_member member_id room_id user_id role) (join_together ids db) existing))
            (many_read (keep_if (is_member room_id user_id) (join_together ids db).members)
              (omega (arith, added))),
      )
