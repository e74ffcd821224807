-- ===== src/Streaming/Room/Genuine.antt =====
-- backend/app/api/v1/endpoints/websocket.py: who the messages of a room come from, however its
-- connections interleave.
use secure_remote_code_execu.Prelude.{
  ◌≡◌, ◌≢◌, ◌⊎◌, refl, sym, ap, ◌∙◌, Bool, true, false, Bool-cases, inl, inr, Option, some, List,
  [], ◌∷◌, ◌++◌, take, All, All-append, arith, ◌==◌, nat_eq, list_eq, eq_iff, if◌then◌else◌,
}
use mathlib.Core.Path.{subst}
use secure_remote_code_execu.Prelude.Texts.{Text, codes}
use secure_remote_code_execu.Redis.{Redis, RedisLaws}
use secure_remote_code_execu.Streaming.Room.{
  SocketClaims, accepted, handshake, Value, str, Object, get_item, set_item, Loaded, object,
  undecodable, other, ObjectCodec, sync_channel, exec_channel, Member, presence, sync_types,
  exec_types, is_one_of, sign, announce, fan_out, on_loaded, on_text,
}

-- A dictionary gives back the item that was set, and keeps the others.
pub get_item-set_item :
    (k key : Text) (v : Value) (o : Object)
    → get_item k (set_item key v o) ≡ (if k == key then some v else get_item k o)
unfolding get_item set_item
get_item-set_item k key v [] = refl
get_item-set_item k key v ((j, w) ∷ o) =
    ground (arith, get_item-set_item k key v o, eq_iff k key, eq_iff k j, eq_iff key j)

signed_id :
    (m : Member) (o : Object) → get_item (codes "sender_id") (sign m o) ≡ some (str m.user_id)
unfolding sign
signed_id m o = simp (
  get_item-set_item (codes "sender_id") (codes "sender_email") (str m.user_email),
  get_item-set_item (codes "sender_id") (codes "sender_id") (str m.user_id),
)

signed_email :
    (m : Member) (o : Object) → get_item (codes "sender_email") (sign m o) ≡ some (str m.user_email)
unfolding sign
signed_email m o =
    simp (get_item-set_item (codes "sender_email") (codes "sender_email") (str m.user_email))

module _ (r : Redis) (j : ObjectCodec) (room_id : Text) (decode : Text → Option SocketClaims) where
  -- The room: what Redis has, and who is connected.
  pub record RoomState : Type 0 where
    pub db : r.Db
    pub members : List Member

  abbrev pub Admitted : Member → Type 0
  Admitted m = (token : Option Text) × (handshake decode token ≡ accepted m.user_id m.user_email)

  -- A connection is accepted and announced, a client sends a text, or a connection ends.
  pub data Step : RoomState → RoomState → Type 0 where
    join :
        (x : RoomState) (m : Member)
        → Admitted m
        → Step x
            (record { db = announce r j room_id (codes "joined") m x.db; members = m ∷ x.members })
    send :
        (x : RoomState) (m : Member) (t : Text) (before after : List Member)
        → x.members ≡ before ++ m ∷ after
        → Step x (record { db = (on_text r j room_id m t x.db).0; members = x.members })
    leave :
        (x : RoomState) (m : Member) (before after : List Member)
        → x.members ≡ before ++ m ∷ after
        → Step x
            (record { db = announce r j room_id (codes "left") m x.db; members = before ++ after })

  pub data Reach (x : RoomState) : RoomState → Type 0 where
    here : Reach x x
    next : {y z : RoomState} → Reach x y → Step y z → Reach x z

  -- What the gateway says of an admitted user who comes or goes.
  pub data Announced (message : Text) : Type 0 where
    joined :
        (m : Member)
        → Admitted m
        → message ≡ j.dumps (presence (codes "joined") m)
        → Announced message
    left :
        (m : Member)
        → Admitted m
        → message ≡ j.dumps (presence (codes "left") m)
        → Announced message

  -- A frame of one of the kinds that carries an admitted user as its sender.
  pub data Relayed (kinds : List Text) (message : Text) : Type 0 where
    relayed :
        (m : Member) (o : Object)
        → Admitted m
        → j.loads message ≡ object o
        → is_one_of kinds (get_item (codes "type") o) ≡ true
        → get_item (codes "sender_id") o ≡ some (str m.user_id)
        → get_item (codes "sender_email") o ≡ some (str m.user_email)
        → Relayed kinds message

  abbrev pub SyncMessage : Text → Type 0
  SyncMessage message = Announced message ⊎ Relayed sync_types message

  abbrev sync_of : r.Db → List Text
  sync_of db = r.published (sync_channel room_id) db

  abbrev exec_of : r.Db → List Text
  exec_of db = r.published (exec_channel room_id) db

  record Genuine (db : r.Db) : Type 0 where
    on_sync : All SyncMessage (sync_of db)
    on_exec : All (Relayed exec_types) (exec_of db)

  sign-Relayed :
      (kinds : List Text) (m : Member) (o : Object)
      → Admitted m
      → is_one_of kinds (get_item (codes "type") (sign m o)) ≡ true
      → Relayed kinds (j.dumps (sign m o))
  sign-Relayed kinds m o known h =
      let (o', e, same) = j.loads-dumps (sign m o) in
      relayed m o' known e (ap (is_one_of kinds) (same (codes "type")) ∙ h)
        (same (codes "sender_id") ∙ signed_id m o) (same (codes "sender_email") ∙ signed_email m o)

  channels_differ : sync_channel room_id ≢ exec_channel room_id
  channels_differ h =
      let is_sync : Text → Bool = λ t. take 10 t == codes "rce:room:s" in
      let e : true ≡ false = ap is_sync h in cc

  module _ (laws : RedisLaws r) where
    on_sync_channel :
        (message : Text) (db : r.Db)
        → SyncMessage message
        → Genuine db
        → Genuine (r.publish (sync_channel room_id) message db)
    on_sync_channel message db new g = record {
      on_sync =
          subst (All SyncMessage) (sym (laws.published-publish (sync_channel room_id) message db))
            (All-append SyncMessage (sync_of db) (message ∷ []) g.on_sync (new, tt));
      on_exec =
          subst (All (Relayed exec_types))
            (sym (
              laws.published-publish_other (exec_channel room_id) (sync_channel room_id) message db
                (λ e. channels_differ (sym e))))
            g.on_exec;
    }

    on_exec_channel :
        (message : Text) (db : r.Db)
        → Relayed exec_types message
        → Genuine db
        → Genuine (r.publish (exec_channel room_id) message db)
    on_exec_channel message db new g = record {
      on_exec =
          subst (All (Relayed exec_types))
            (sym (laws.published-publish (exec_channel room_id) message db))
            (All-append (Relayed exec_types) (exec_of db) (message ∷ []) g.on_exec (new, tt));
      on_sync =
          subst (All SyncMessage)
            (sym (
              laws.published-publish_other (sync_channel room_id) (exec_channel room_id) message db
                channels_differ))
            g.on_sync;
    }

    fan_out-Genuine :
        (m : Member) (o : Object) (db : r.Db)
        → Admitted m
        → Genuine db
        → Genuine (fan_out r j room_id (sign m o) db)
    unfolding fan_out
    fan_out-Genuine m o db known g =
        let kind = get_item (codes "type") (sign m o) in
        elim (Bool-cases (is_one_of sync_types kind)) [
          | inl s ↦ rw s (on_sync_channel _ db (inr (sign-Relayed sync_types m o known s)) g)
          | inr n ↦ elim (Bool-cases (is_one_of exec_types kind)) [
            | inl s ↦ rw n (rw s (on_exec_channel _ db (sign-Relayed exec_types m o known s) g))
            | inr k ↦ rw n (rw k g)
          ]
        ]

    announce-Genuine :
        (action : Text) (m : Member) (db : r.Db)
        → SyncMessage (j.dumps (presence action m))
        → Genuine db
        → Genuine (announce r j room_id action m db)
    unfolding announce
    announce-Genuine action m db new g = on_sync_channel (j.dumps (presence action m)) db new g

    on_loaded-Genuine :
        (m : Member) (l : Loaded) (db : r.Db)
        → Admitted m
        → Genuine db
        → Genuine (on_loaded r j room_id m l db).0
    on_loaded-Genuine m (object o) db known g = fan_out-Genuine m o db known g
    on_loaded-Genuine m undecodable db known g = g
    on_loaded-Genuine m other db known g = g

    on_text-Genuine :
        (m : Member) (t : Text) (db : r.Db)
        → Admitted m
        → Genuine db
        → Genuine (on_text r j room_id m t db).0
    unfolding on_text
    on_text-Genuine m [] db known g = g
    on_text-Genuine m (c ∷ t) db known g = on_loaded-Genuine m (j.loads (c ∷ t)) db known g

    All-split :
        (P : Member → Type 0) (m : Member) (before after : List Member)
        → All P (before ++ m ∷ after)
        → P m × All P (before ++ after)
    All-split P m [] after h = h
    All-split P m (x ∷ before) after h =
        let (known, rest) = All-split P m before after h.1 in (known, (h.0, rest))

    record Kept (x : RoomState) : Type 0 where
      admitted : All Admitted x.members
      genuine : Genuine x.db

    Step-Kept : {x y : RoomState} → Step x y → Kept x → Kept y
    Step-Kept (join x m known) k = record {
      admitted = (known, k.admitted);
      genuine = announce-Genuine (codes "joined") m x.db (inl (joined m known refl)) k.genuine;
    }
    Step-Kept (send x m t before after e) k =
        let (known, rest) = All-split Admitted m before after (subst (All Admitted) e k.admitted) in
        record { admitted = k.admitted; genuine = on_text-Genuine m t x.db known k.genuine }
    Step-Kept (leave x m before after e) k =
        let (known, rest) = All-split Admitted m before after (subst (All Admitted) e k.admitted) in
        record {
          admitted = rest;
          genuine = announce-Genuine (codes "left") m x.db (inl (left m known refl)) k.genuine;
        }

    Reach-Kept : {x y : RoomState} → Kept x → Reach x y → Kept y
    Reach-Kept k here = k
    Reach-Kept k (next reached step) = Step-Kept step (Reach-Kept k reached)

    -- In a room in which nothing was published and nobody is connected: after connections, texts and
    -- departures in any order, whatever the clients send: every message of the room is an event that
    -- the gateway wrote for a user with a valid token, or a code change, a cursor or a chat message
    -- whose sender is such a user; and whatever asks for a run names such a user as its sender.
    pub Reach-genuine :
        {x : RoomState} (db : r.Db)
        → sync_of db ≡ []
        → exec_of db ≡ []
        → Reach (record { db = db; members = [] }) x
        → All SyncMessage (r.published (sync_channel room_id) x.db)
          × All (Relayed exec_types) (r.published (exec_channel room_id) x.db)
    Reach-genuine {x} db no_sync no_exec reached =
        let k =
          Reach-Kept
            (record {
              admitted = tt;
              genuine = record { on_sync = rw no_sync tt; on_exec = rw no_exec tt };
            })
            reached in
        (k.genuine.on_sync, k.genuine.on_exec)
