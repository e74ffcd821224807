-- ===== src/Streaming/Replay.antt =====
-- backend/app/api/v1/endpoints/websocket.py: `downstream_pump` and `upstream_pump`, which join a
-- client to an execution. A frame is sent as the text that came from Redis; sending succeeds.
pub mod Order
pub mod Once
use secure_remote_code_execu.Prelude.{
  ℕ, zero, suc, Bool, true, false, Option, none, some, ◌||◌, ◌==◌, list_eq, nat_eq, List, [], ◌∷◌,
  ◌++◌, if◌then◌else◌,
}
use secure_remote_code_execu.Prelude.Texts.{Text, codes}
use secure_remote_code_execu.Prelude.Int.{ℤ, pos, negsuc, ltb_ℤ}
use secure_remote_code_execu.Sandbox.Models.{
  StreamEventType, stdout, stderr, status, error, complete,
}
use secure_remote_code_execu.Streaming.Json.{Frame}

-- What the client was sent so far, and the highest sequence number of it.
pub record Pump : Type 0 where
  pub sent : List Text
  pub last_seq : ℤ

abbrev pub new_pump : Pump
new_pump = record { sent = []; last_seq = negsuc 0 }

-- `await websocket.send_text(frame_str)`
abbrev pub send_text : Text → Pump → Pump
send_text frame_str p = record p { sent = p.sent ++ frame_str ∷ [] }

-- `if seq > last_seq:`
abbrev pub forward_new : ℕ → Text → Pump → Pump
forward_new seq frame_str p =
    if ltb_ℤ p.last_seq (pos seq)
    then record { sent = p.sent ++ frame_str ∷ []; last_seq = pos seq }
    else p

-- `frame_data.get("event") in ["complete", "error"]`
abbrev pub is_terminal : StreamEventType → Bool
is_terminal stdout = false
is_terminal stderr = false
is_terminal status = false
is_terminal error = true
is_terminal complete = true

-- One turn of the live loop: the data of the message, if there is one, and whether the client is
-- still connected at the end of the turn.
pub record Poll : Type 0 where
  pub message : Option Text
  pub connected : Bool

module _ (loads : Text → Option Frame) where
  -- The catch-up over the buffered frames.
  unfoldable pub flush_buffered : List Text → Pump → Pump
  flush_buffered [] p = p
  flush_buffered (frame_str ∷ rest) p = elim (loads frame_str) [
    | none ↦ flush_buffered rest (send_text frame_str p)
    | some frame ↦ flush_buffered rest (forward_new frame.sequence frame_str p)
  ]

  -- What a message does, and whether the loop breaks on it. A message without data is skipped.
  unfoldable pub on_message : Option Text → Pump → Pump × Bool
  on_message none p = (p, false)
  on_message (some []) p = (p, false)
  on_message (some (x ∷ xs)) p = elim (loads (x ∷ xs)) [
    | none ↦ (send_text (x ∷ xs) p, false)
    | some frame ↦ (forward_new frame.sequence (x ∷ xs) p, is_terminal frame.event)
  ]

  unfoldable pub pump_live : List Poll → Pump → Pump
  pump_live [] p = p
  pump_live (poll ∷ polls) p =
      let (p', stop) = on_message poll.message p in
      let rest = pump_live polls p' in if stop then p' else if poll.connected then rest else p'

  unfoldable pub downstream_pump : List Text → List Poll → Pump
  downstream_pump buffered polls = pump_live polls (flush_buffered buffered new_pump)

-- What `json.loads` of a client's text is: an object with its "type", or nothing when it raises a
-- `JSONDecodeError`. Any other text ends the loop, which is `other`.
pub data ClientText : Type 0 where
  object : Option Text → ClientText
  undecodable : ClientText
  other : ClientText

module _ (parse : Text → ClientText) (wrap_stdin : Text → Text) where
  abbrev pub is_input_type : Option Text → Bool
  is_input_type none = false
  is_input_type (some t) = (t == codes "stdin") || ((t == codes "resize") || (t == codes "signal"))

  -- What comes of a text, before what comes of those behind it.
  abbrev pub forward_text : Text → ClientText → List Text → List Text
  forward_text raw (object frame_type) rest = if is_input_type frame_type then raw ∷ rest else rest
  forward_text raw undecodable rest = wrap_stdin raw ∷ rest
  forward_text raw other rest = []

  -- The messages that `upstream_pump` publishes on the input channel for the texts it receives.
  unfoldable pub upstream_pump : List Text → List Text
  upstream_pump [] = []
  upstream_pump ([] ∷ texts) = upstream_pump texts
  upstream_pump ((x ∷ xs) ∷ texts) = forward_text (x ∷ xs) (parse (x ∷ xs)) (upstream_pump texts)
