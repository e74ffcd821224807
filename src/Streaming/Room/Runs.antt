-- ===== src/Streaming/Room/Runs.antt =====
-- backend/app/api/v1/endpoints/websocket.py: a call of `websocket_collaborative_room` is a run of the
-- steps of a room.
use secure_remote_code_execu.Prelude.{◌≡◌, refl, Bool-cases, inl, inr, Option, List, [], ◌∷◌}
use secure_remote_code_execu.Prelude.Texts.{Text, codes}
use secure_remote_code_execu.Redis.{Redis}
use secure_remote_code_execu.Streaming.Room.{
  SocketClaims, Handshake, closed, accepted, handshake, ObjectCodec, Member, announce, on_text,
  room_upstream_pump, serve_room, Turn, websocket_collaborative_room,
}
use secure_remote_code_execu.Streaming.Room.Genuine.{
  RoomState, Reach, here, next, join, send, leave,
}

module _ (r : Redis) (j : ObjectCodec) (room_id : Text) (decode : Text → Option SocketClaims) where
  -- The endpoint itself is such a run, among any members.
  pump-Reach :
      (x : RoomState r j room_id decode) (m : Member) (others : List Member) (texts : List Text)
      (db : r.Db)
      → Reach r j room_id decode x (record { db = db; members = m ∷ others })
      → Reach r j room_id decode x
          (record { db = room_upstream_pump r j room_id m texts db; members = m ∷ others })
  unfolding room_upstream_pump
  pump-Reach x m others [] db reached = reached
  pump-Reach x m others (t ∷ texts) db reached =
      let y : RoomState r j room_id decode = record { db = db; members = m ∷ others } in
      let stepped = next reached (send y m t [] others refl) in
      elim (Bool-cases (on_text r j room_id m t db).1) [
        | inl more ↦
            simp (more) (pump-Reach x m others texts (on_text r j room_id m t db).0 stepped)
        | inr no_more ↦ simp (no_more) stepped
      ]

  serve_room-Reach :
      (h : Handshake) (token : Option Text) (others : List Member) (texts : List Text) (db : r.Db)
      → handshake decode token ≡ h
      → Reach r j room_id decode
          (record { db = db; members = others })
          (record { db = serve_room r j room_id h texts db; members = others })
  serve_room-Reach (closed code) token others texts db e = here
  serve_room-Reach (accepted u a) token others texts db e =
      let m : Member = record { user_id = u; user_email = a } in
      let x : RoomState r j room_id decode = record { db = db; members = others } in
      next
        (pump-Reach x m others texts (announce r j room_id (codes "joined") m db)
          (next here (join x m (token, e))))
        (leave _ m [] others refl)

  pub websocket_collaborative_room-Reach :
      (token : Option Text) (others : List Member) (texts : List Text) (turns : List Turn)
      (db : r.Db)
      → Reach r j room_id decode
          (record { db = db; members = others })
          (record {
            db = (websocket_collaborative_room r j room_id decode token texts turns db).0;
            members = others;
          })
  unfolding websocket_collaborative_room
  websocket_collaborative_room-Reach token others texts turns db =
      serve_room-Reach (handshake decode token) token others texts db refl
