-- ===== src/Streaming/Room/Tests.antt =====
-- A user connects to a room, sends a frame and leaves.
use secure_remote_code_execu.Prelude.{◌≡◌, refl, ◌⊎◌, none, some, [], ◌∷◌, All}
use secure_remote_code_execu.Prelude.Texts.{Text, codes}
use secure_remote_code_execu.Streaming.Samples.{server, server-RedisLaws}
use secure_remote_code_execu.Streaming.Room.{
  closed, accepted, handshake, str, sync_types, exec_types, sync_channel, exec_channel,
  websocket_collaborative_room,
}
use secure_remote_code_execu.Streaming.Room.Genuine.{Announced, Relayed, Reach-genuine}
use secure_remote_code_execu.Streaming.Room.Runs.{websocket_collaborative_room-Reach}
use secure_remote_code_execu.Streaming.Room.Samples.{objects, decode}

abbrev empty : server.Db
empty = (λ k. [], λ c. [])

-- A client that claims to be someone else.
abbrev forged : Text
forged =
    objects.dumps
      ((codes "type", str (codes "chat_message")) ∷ (codes "sender_id", str (codes "eve")) ∷ [])

abbrev after : server.Db
after =
    (websocket_collaborative_room server objects (codes "7") decode (some (codes "bob"))
      (forged ∷ []) [] empty).0

handshake-no_token : handshake decode none ≡ closed 1008
unfolding handshake
handshake-no_token = refl

handshake-bob : handshake decode (some (codes "bob")) ≡ accepted (codes "bob") (codes "Anonymous")
unfolding handshake
handshake-bob = refl

Reach-genuine_example :
    All
      (λ m.
        Announced server objects (codes "7") decode m
        ⊎ Relayed server objects (codes "7") decode sync_types m)
      (server.published (sync_channel (codes "7")) after)
    × All
        (Relayed server objects (codes "7") decode exec_types)
        (server.published (exec_channel (codes "7")) after)
Reach-genuine_example =
    Reach-genuine server objects (codes "7") decode server-RedisLaws empty refl refl (
      websocket_collaborative_room-Reach server objects (codes "7") decode (some (codes "bob")) []
        (forged ∷ []) [] empty)
