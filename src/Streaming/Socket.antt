-- ===== src/Streaming/Socket.antt =====
-- backend/app/api/v1/endpoints/websocket.py: `websocket_stream_submission`, with its handshake.
use secure_remote_code_execu.Prelude.{ℕ, Option, none, some, List, [], ◌∷◌}
use secure_remote_code_execu.Prelude.Texts.{Text}
use secure_remote_code_execu.Streaming.Json.{Frame}
use secure_remote_code_execu.Streaming.Replay.{
  Pump, Poll, downstream_pump, ClientText, upstream_pump,
}
use secure_remote_code_execu.Streaming.Room.{SocketClaims}

-- The connection is closed with a code; or it is accepted, with what the client was sent and what was
-- published on the input channel.
pub data SocketSession : Type 0 where
  closed : ℕ → SocketSession
  streamed : Pump → List Text → SocketSession

abbrev open_for : Option Text → SocketSession → SocketSession
open_for none session = closed 1008
open_for (some []) session = closed 1008
open_for (some (c ∷ user)) session = session

abbrev checked : Option SocketClaims → SocketSession → SocketSession
checked none session = closed 1008
checked (some claims) session = open_for claims.sub session

abbrev authenticated : (Text → Option SocketClaims) → Option Text → SocketSession → SocketSession
authenticated decode none session = closed 1008
authenticated decode (some []) session = closed 1008
authenticated decode (some (c ∷ token)) session = checked (decode (c ∷ token)) session

-- The turns and the texts are those before one of the two pumps ends, which ends the other.
unfoldable pub websocket_stream_submission :
    (Text → Option Frame)
    → (Text → ClientText)
    → (Text → Text)
    → (Text → Option SocketClaims)
    → Option Text
    → List Text
    → List Poll
    → List Text
    → SocketSession
unfolding downstream_pump upstream_pump
websocket_stream_submission loads parse wrap_stdin decode token buffered polls texts =
    authenticated decode token
      (streamed (downstream_pump loads buffered polls) (upstream_pump parse wrap_stdin texts))
