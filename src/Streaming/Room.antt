-- ===== src/Streaming/Room.antt =====
-- backend/app/api/v1/endpoints/websocket.py: the handshake of both endpoints, and
-- `websocket_collaborative_room`. `decode` is `decode_token`, `json` an argument, Redis too.
pub mod Genuine
pub mod Runs
pub mod Samples
mod Tests
use secure_remote_code_execu.Prelude.{
  ℕ, Bool, true, false, ◌||◌, Option, none, some, List, [], ◌∷◌, ◌++◌, ◌≡◌, ◌==◌, nat_eq, list_eq,
  any, if◌then◌else◌,
}
use secure_remote_code_execu.Prelude.Texts.{Text, codes}
use secure_remote_code_execu.Redis.{Redis}

-- What is read of a token's payload.
pub record SocketClaims : Type 0 where
  pub sub : Option Text
  pub email : Option Text

-- `websocket.close(code)`, or `websocket.accept()` for a user with an email.
pub data Handshake : Type 0 where
  closed : ℕ → Handshake
  accepted : Text → Text → Handshake

-- `payload.get("email", "Anonymous")`
abbrev pub claimed_email : Option Text → Text
claimed_email none = codes "Anonymous"
claimed_email (some e) = e

-- A missing or empty `sub` is refused.
abbrev pub admit : Option Text → Option Text → Handshake
admit none email = closed 1008
admit (some []) email = closed 1008
admit (some (c ∷ s)) email = accepted (c ∷ s) (claimed_email email)

abbrev pub admit_claims : Option SocketClaims → Handshake
admit_claims none = closed 1008
admit_claims (some claims) = admit claims.sub claims.email

unfoldable pub handshake : (Text → Option SocketClaims) → Option Text → Handshake
handshake decode none = closed 1008
handshake decode (some []) = closed 1008
handshake decode (some (c ∷ t)) = admit_claims (decode (c ∷ t))

-- A value of a JSON object: a string, or any other value as it is written.
pub data Value : Type 0 where
  str : Text → Value
  raw : Text → Value

-- A dictionary, by the keys in their order.
abbrev pub Object : Type 0
Object = List (Text × Value)

-- `frame.get(key)`
unfoldable pub get_item : Text → Object → Option Value
get_item key [] = none
get_item key ((k, v) ∷ o) = if key == k then some v else get_item key o

-- `frame[key] = value`
unfoldable pub set_item : Text → Value → Object → Object
set_item key value [] = (key, value) ∷ []
set_item key value ((k, v) ∷ o) =
    let rest = set_item key value o in if key == k then (k, value) ∷ o else (k, v) ∷ rest

-- What `json.loads` of a text is: an object, nothing when it raises a `JSONDecodeError`, or another
-- value, which takes no item.
pub data Loaded : Type 0 where
  object : Object → Loaded
  undecodable : Loaded
  other : Loaded

-- Reading what was written gives an object with the same items.
pub record ObjectCodec : Type 0 where
  pub dumps : Object → Text
  pub loads : Text → Loaded
  pub loads-dumps :
      (o : Object)
      → (o' : Object) × (loads (dumps o) ≡ object o') × ((k : Text) → get_item k o' ≡ get_item k o)

abbrev pub sync_channel : Text → Text
sync_channel room_id = codes "rce:room:sync:" ++ room_id

abbrev pub exec_channel : Text → Text
exec_channel room_id = codes "rce:room:exec:" ++ room_id

-- A user who is connected.
pub record Member : Type 0 where
  pub user_id : Text
  pub user_email : Text

abbrev pub presence : Text → Member → Object
presence action m =
    (codes "type", str (codes "presence"))
    ∷ (codes "action", str action)
    ∷ (codes "user_id", str m.user_id)
    ∷ (codes "email", str m.user_email)
    ∷ []

-- The frames that are shared with the room, and the one that asks for a run.
abbrev pub sync_types : List Text
sync_types = codes "code_delta" ∷ codes "cursor_move" ∷ codes "chat_message" ∷ []

abbrev pub exec_types : List Text
exec_types = codes "run_code" ∷ []

abbrev pub is_one_of : List Text → Option Value → Bool
is_one_of kinds none = false
is_one_of kinds (some (raw t)) = false
is_one_of kinds (some (str t)) = any (λ k. t == k) kinds

unfoldable pub sign : Member → Object → Object
unfolding set_item
sign m frame =
    set_item (codes "sender_email") (str m.user_email)
      (set_item (codes "sender_id") (str m.user_id) frame)

module _ (r : Redis) (j : ObjectCodec) (room_id : Text) where
  -- Both events of `presence` are published on the channel of the room.
  unfoldable pub announce : Text → Member → r.Db → r.Db
  announce action m db = r.publish (sync_channel room_id) (j.dumps (presence action m)) db

  unfoldable pub fan_out : Object → r.Db → r.Db
  unfolding get_item
  fan_out frame db =
      let frame_type = get_item (codes "type") frame in
      if is_one_of sync_types frame_type
      then r.publish (sync_channel room_id) (j.dumps frame) db
      else if is_one_of exec_types frame_type
      then r.publish (exec_channel room_id) (j.dumps frame) db
      else db

  -- One text of a client: what it leaves, and whether the loop goes on.
  abbrev pub on_loaded : Member → Loaded → r.Db → r.Db × Bool
  on_loaded m (object frame) db = (fan_out (sign m frame) db, true)
  on_loaded m undecodable db = (db, true)
  on_loaded m other db = (db, false)

  unfoldable pub on_text : Member → Text → r.Db → r.Db × Bool
  unfolding fan_out sign
  on_text m [] db = (db, true)
  on_text m (c ∷ t) db = on_loaded m (j.loads (c ∷ t)) db

  -- The texts that are received before the client is gone or the other pump has ended.
  unfoldable pub room_upstream_pump : Member → List Text → r.Db → r.Db
  unfolding on_text
  room_upstream_pump m [] db = db
  room_upstream_pump m (t ∷ texts) db =
      let (db', more) = on_text m t db in
      let rest = room_upstream_pump m texts db' in if more then rest else db'

  abbrev pub serve_room : Handshake → List Text → r.Db → r.Db
  serve_room (closed code) texts db = db
  serve_room (accepted u e) texts db =
      let m : Member = record { user_id = u; user_email = e } in
      announce (codes "left") m (room_upstream_pump m texts (announce (codes "joined") m db))

-- A turn of `room_downstream_pump`: the data of the message, if there is one, whether it could be
-- sent, and whether the client is connected at the end of the turn.
pub record Turn : Type 0 where
  pub message : Option Text
  pub sendable : Bool
  pub connected : Bool

-- What is sent in a turn, and whether the loop goes on.
abbrev pub send_message : Option Text → Bool → Bool → List Text × Bool
send_message none sendable connected = ([], connected)
send_message (some []) sendable connected = ([], connected)
send_message (some (c ∷ t)) true connected = ((c ∷ t) ∷ [], connected)
send_message (some (c ∷ t)) false connected = ([], false)

unfoldable pub room_downstream_pump : List Turn → List Text
room_downstream_pump [] = []
room_downstream_pump (t ∷ turns) =
    let (sent, more) = send_message t.message t.sendable t.connected in
    let rest = room_downstream_pump turns in if more then sent ++ rest else sent

-- What an accepted client is sent.
abbrev sent_to : Handshake → List Turn → List Text
sent_to (closed code) turns = []
sent_to (accepted u e) turns = room_downstream_pump turns

-- The endpoint: what it does to Redis, and what the client is sent. The texts and the turns are
-- those before one of the two pumps ends, which ends the other.
unfoldable pub websocket_collaborative_room :
    (r : Redis) (j : ObjectCodec) (room_id : Text)
    → (Text → Option SocketClaims)
    → Option Text
    → List Text
    → List Turn
    → r.Db
    → r.Db × List Text
unfolding handshake announce room_upstream_pump room_downstream_pump
websocket_collaborative_room r j room_id decode token texts turns db = (
  serve_room r j room_id (handshake decode token) texts db,
  sent_to (handshake decode token) turns,
)
