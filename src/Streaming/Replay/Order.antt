-- ===== src/Streaming/Replay/Order.antt =====
-- The chunks of an execution as the frames of a channel: where the terminal one stands, and the
-- frames before and after an index.
use secure_remote_code_execu.Prelude.{
  ℕ, zero, suc, ◌+◌, ◌≤◌, ◌≡◌, refl, ap, sym, ◌∙◌, true, false, none, some, List, [], ◌∷◌, ◌++◌,
  map, take, drop, length, if◌then◌else◌, arith,
}
use secure_remote_code_execu.Prelude.Texts.{Text}
use secure_remote_code_execu.Prelude.Int.{sub_ℕ}
use secure_remote_code_execu.Sandbox.Models.{StreamChunk}
use secure_remote_code_execu.Streaming.Json.{Frame, FrameCodec}
use secure_remote_code_execu.Streaming.Multiplexer.Gapless.{number}
use secure_remote_code_execu.Streaming.Replay.{Pump, Poll, is_terminal}

-- The chunks up to the first terminal one, which is included.
abbrev pub until_terminal : List StreamChunk → List StreamChunk
until_terminal [] = []
until_terminal (c ∷ cs) =
    let rest = until_terminal cs in if is_terminal c.event then c ∷ [] else c ∷ rest

-- Only the last chunk may be terminal.
abbrev pub EndsOnce : List StreamChunk → Type 0
EndsOnce [] = Unit
EndsOnce (c ∷ []) = Unit
EndsOnce (c ∷ (d ∷ cs)) = (is_terminal c.event ≡ false) × EndsOnce (d ∷ cs)

-- The turns of the loop of a connected client that gets the texts, with any number of turns
-- without a message before each.
abbrev pub idle_polls : ℕ → List Poll → List Poll
idle_polls zero rest = rest
idle_polls (suc n) rest = record { message = none; connected = true } ∷ idle_polls n rest

abbrev pub polls_of : (ℕ → ℕ) → ℕ → List Text → List Poll
polls_of waits n [] = []
polls_of waits n (t ∷ ts) =
    idle_polls (waits n) (record { message = some t; connected = true } ∷ polls_of waits (n + 1) ts)

abbrev pub frame_at : Text → ℕ → StreamChunk → Frame
frame_at id n c = record {
  submission_id = id;
  sequence = n;
  event = c.event;
  payload = c.payload;
  timestamp = c.timestamp;
}

abbrev pub texts_of : FrameCodec → List Frame → List Text
texts_of codec frames = map codec.dumps frames

-- A pump that has sent `s`, up to the sequence number before `n`.
abbrev pub pump_at : List Text → ℕ → Pump
pump_at s n = record { sent = s; last_seq = sub_ℕ n 1 }

pub until_terminal-EndsOnce : (cs : List StreamChunk) → EndsOnce cs → until_terminal cs ≡ cs
until_terminal-EndsOnce [] h = refl
until_terminal-EndsOnce (c ∷ []) h = ground arith
until_terminal-EndsOnce (c ∷ (d ∷ cs)) h =
    rw (h.0) (ap (λ l. c ∷ l) (until_terminal-EndsOnce (d ∷ cs) h.1))

pub EndsOnce-drop : (i : ℕ) (cs : List StreamChunk) → EndsOnce cs → EndsOnce (drop i cs)
EndsOnce-drop zero cs h = h
EndsOnce-drop (suc i) [] h = tt
EndsOnce-drop (suc zero) (c ∷ []) h = tt
EndsOnce-drop (suc (suc i)) (c ∷ []) h = tt
EndsOnce-drop (suc i) (c ∷ (d ∷ cs)) h = EndsOnce-drop i (d ∷ cs) h.1

pub drop-nil {ℓ} : {A : Type ℓ} (k : ℕ) → drop {A = A} k [] ≡ []
drop-nil zero = refl
drop-nil (suc k) = refl

pub drop-drop {ℓ} : {A : Type ℓ} (i k : ℕ) (xs : List A) → drop k (drop i xs) ≡ drop (i + k) xs
drop-drop zero k xs = ap (λ m. drop m xs) (omega arith)
drop-drop (suc i) k [] = drop-nil k ∙ sym (drop-nil (suc i + k))
drop-drop (suc i) k (x ∷ xs) =
    let e : suc (i + k) ≡ suc i + k = omega arith in drop-drop i k xs ∙ ap (λ m. drop m (x ∷ xs)) e

pub length-take {ℓ} : {A : Type ℓ} (j : ℕ) (xs : List A) → j ≤ length xs → length (take j xs) ≡ j
length-take zero xs h = refl
length-take (suc j) [] h = ground arith
length-take (suc j) (x ∷ xs) h = ap suc (length-take j xs (omega arith))

pub number-take-drop :
    (j : ℕ) (id : Text) (n : ℕ) (cs : List StreamChunk)
    → number id n (take j cs) ++ number id (n + j) (drop j cs) ≡ number id n cs
number-take-drop zero id n cs = ap (λ i. number id i cs) (omega arith)
number-take-drop (suc j) id n [] = refl
number-take-drop (suc j) id n (c ∷ cs) =
    ap (λ i. frame_at id n c ∷ (number id (n + 1) (take j cs) ++ number id i (drop j cs)))
      (omega arith)
    ∙ ap (λ l. frame_at id n c ∷ l) (number-take-drop j id (n + 1) cs)

pub take-number :
    (j : ℕ) (id : Text) (n : ℕ) (cs : List StreamChunk)
    → take j (number id n cs) ≡ number id n (take j cs)
take-number zero id n cs = refl
take-number (suc j) id n [] = refl
take-number (suc j) id n (c ∷ cs) = ap (λ l. frame_at id n c ∷ l) (take-number j id (n + 1) cs)
