-- ===== src/Streaming/Replay/Once.antt =====
-- What a client gets of an execution: each frame once and in order, up to the first terminal one.
use mathlib.Core.List.{append_assoc, append-nil, map-append}
use secure_remote_code_execu.Prelude.{
  ℕ, zero, suc, ◌+◌, ◌-◌, ◌≤◌, ◌≡◌, refl, ap, sym, ◌∙◌, true, false, Bool-cases, none, some, List,
  [], ◌∷◌, ◌++◌, take, drop, length, if◌then◌else◌, inl, inr, arith,
}
use secure_remote_code_execu.Prelude.Texts.{Text, is_truthy}
use secure_remote_code_execu.Sandbox.Models.{StreamChunk}
use secure_remote_code_execu.Streaming.Json.{Frame, FrameCodec}
use secure_remote_code_execu.Streaming.Multiplexer.Gapless.{number, drop-number}
use secure_remote_code_execu.Streaming.Replay.{
  Pump, Poll, is_terminal, forward_new, send_text, flush_buffered, on_message, pump_live,
  downstream_pump,
}
use secure_remote_code_execu.Streaming.Replay.Order.{
  until_terminal, EndsOnce, idle_polls, polls_of, texts_of, pump_at, frame_at,
  until_terminal-EndsOnce, EndsOnce-drop, drop-nil, drop-drop, length-take, number-take-drop,
  take-number,
}

forward_new-ahead :
    (m n : ℕ) (t : Text) (s : List Text)
    → m ≤ n
    → forward_new n t (pump_at s m) ≡ pump_at (s ++ t ∷ []) (n + 1)
forward_new-ahead m n t s h = ground arith

forward_new-seen :
    (n : ℕ) (t : Text) (s : List Text)
    → forward_new n t (pump_at s n) ≡ pump_at (s ++ t ∷ []) (n + 1)
forward_new-seen n t s = ground arith

forward_new-old :
    (n k : ℕ) (t : Text) (s : List Text)
    → forward_new n t (pump_at s (n + suc k)) ≡ pump_at s (n + suc k)
forward_new-old n k t s = ground arith

module _ (codec : FrameCodec) where
  open codec use {loads, dumps}

  some_message :
      (t : Text) (p : Pump)
      → is_truthy t ≡ true
      → on_message loads (some t) p ≡ (elim (loads t) [
        | none ↦ (send_text t p, false)
        | some frame ↦ (forward_new frame.sequence t p, is_terminal frame.event)
      ])
  unfolding on_message
  some_message (x ∷ xs) p h = refl
  some_message [] p h = ground arith

  on_message-dumps :
      (f : Frame) (p : Pump)
      → on_message loads (some (dumps f)) p
        ≡ (forward_new f.sequence (dumps f) p, is_terminal f.event)
  on_message-dumps f p =
      some_message (dumps f) p (codec.dumps-is_truthy f) ∙ rw (codec.loads-dumps f)

  pump_live-idle :
      (n : ℕ) (polls : List Poll) (p : Pump)
      → pump_live loads (idle_polls n polls) p ≡ pump_live loads polls p
  unfolding pump_live on_message
  pump_live-idle zero polls p = refl
  pump_live-idle (suc n) polls p = pump_live-idle n polls p

  flush_buffered-dumps :
      (f : Frame) (rest : List Text) (p : Pump)
      → flush_buffered loads (dumps f ∷ rest) p
        ≡ flush_buffered loads rest (forward_new f.sequence (dumps f) p)
  unfolding flush_buffered
  flush_buffered-dumps f rest p = rw (codec.loads-dumps f, flush_buffered)

  pump_live-dumps :
      (f : Frame) (polls : List Poll) (p : Pump)
      → pump_live loads (record { message = some (dumps f); connected = true } ∷ polls) p ≡ (
          if is_terminal f.event
          then forward_new f.sequence (dumps f) p
          else pump_live loads polls (forward_new f.sequence (dumps f) p))
  unfolding pump_live
  pump_live-dumps f polls p = rw (on_message-dumps f p)

  flush_buffered-number :
      (id : Text) (n : ℕ) (cs : List StreamChunk) (s : List Text)
      → flush_buffered loads (texts_of codec (number id n cs)) (pump_at s n)
        ≡ pump_at (s ++ texts_of codec (number id n cs)) (n + length cs)
  unfolding flush_buffered
  flush_buffered-number id n [] s =
      ap (λ l. pump_at l n) (sym (append-nil s)) ∙ ap (λ i. pump_at (s ++ []) i) (omega arith)
  flush_buffered-number id n (c ∷ cs) s =
      flush_buffered-dumps (frame_at id n c) _ _
      ∙ ap (flush_buffered loads (texts_of codec (number id (n + 1) cs)))
          (forward_new-seen n (dumps (frame_at id n c)) s)
      ∙ flush_buffered-number id (n + 1) cs (s ++ dumps (frame_at id n c) ∷ [])
      ∙ ap (λ l. pump_at l (n + 1 + length cs)) (append_assoc s (dumps (frame_at id n c) ∷ []) _)
      ∙ ap (pump_at (s ++ texts_of codec (number id n (c ∷ cs)))) (omega arith)

  pump_live-first :
      (id : Text) (waits : ℕ → ℕ) (n : ℕ) (c : StreamChunk) (cs : List StreamChunk) (p q : Pump)
      → forward_new n (dumps (frame_at id n c)) p ≡ q
      → pump_live loads (polls_of waits n (texts_of codec (number id n (c ∷ cs)))) p ≡ (
          if is_terminal c.event
          then q
          else pump_live loads (polls_of waits (n + 1) (texts_of codec (number id (n + 1) cs))) q)
  pump_live-first id waits n c cs p q h =
      pump_live-idle (waits n) _ p
      ∙ pump_live-dumps (frame_at id n c) _ p
      ∙ ap
          (λ r.
            if is_terminal c.event
            then r
            else pump_live loads (polls_of waits (n + 1) (texts_of codec (number id (n + 1) cs))) r)
          h

  -- The live loop, from a pump that has seen the first `k` of the frames that come.
  pump_live-number :
      (id : Text) (waits : ℕ → ℕ) (n k : ℕ) (cs : List StreamChunk) (s : List Text)
      → (pump_live loads
          (polls_of waits n (texts_of codec (number id n cs)))
          (pump_at s (n + k))).sent
        ≡ s ++ texts_of codec (drop k (number id n (until_terminal cs)))
  unfolding pump_live
  pump_live-number id waits n zero [] s = sym (append-nil s)
  pump_live-number id waits n (suc k) [] s = sym (append-nil s)
  pump_live-number id waits n zero (c ∷ cs) s =
      ap Pump.sent (
        pump_live-first id waits n c cs _ _ (
          ap (λ i. forward_new n (dumps (frame_at id n c)) (pump_at s i)) (omega arith)
          ∙ forward_new-seen n (dumps (frame_at id n c)) s))
      ∙ elim (Bool-cases (is_terminal c.event)) [
        | inl t ↦ rw (t) refl
        | inr f ↦ rw (f) (
            ap
              (λ i.
                (pump_live loads (polls_of waits (n + 1) (texts_of codec (number id (n + 1) cs)))
                  (pump_at (s ++ dumps (frame_at id n c) ∷ []) i)).sent)
              (omega arith)
            ∙ pump_live-number id waits (n + 1) 0 cs (s ++ dumps (frame_at id n c) ∷ [])
            ∙ append_assoc s (dumps (frame_at id n c) ∷ []) _)
      ]
  pump_live-number id waits n (suc k) (c ∷ cs) s =
      ap Pump.sent
        (pump_live-first id waits n c cs _ _ (forward_new-old n k (dumps (frame_at id n c)) s))
      ∙ elim (Bool-cases (is_terminal c.event)) [
        | inl t ↦ rw (t) (sym (append-nil s) ∙ ap (λ l. s ++ texts_of codec l) (sym (drop-nil k)))
        | inr f ↦ rw (f) (
            ap
              (λ i.
                (pump_live loads (polls_of waits (n + 1) (texts_of codec (number id (n + 1) cs)))
                  (pump_at s i)).sent)
              (omega arith)
            ∙ pump_live-number id waits (n + 1) k cs s)
      ]

  -- The live loop, from a pump that has missed frames.
  pump_live-ahead :
      (id : Text) (waits : ℕ → ℕ) (m n : ℕ) (cs : List StreamChunk) (s : List Text)
      → m ≤ n
      → (pump_live loads (polls_of waits n (texts_of codec (number id n cs))) (pump_at s m)).sent
        ≡ s ++ texts_of codec (number id n (until_terminal cs))
  unfolding pump_live
  pump_live-ahead id waits m n [] s h = sym (append-nil s)
  pump_live-ahead id waits m n (c ∷ cs) s h =
      ap Pump.sent (
        pump_live-first id waits n c cs _ _ (forward_new-ahead m n (dumps (frame_at id n c)) s h)
        ∙ sym
            (pump_live-first id waits n c cs _ _ (forward_new-seen n (dumps (frame_at id n c)) s)))
      ∙ ap
          (λ i.
            (pump_live loads (polls_of waits n (texts_of codec (number id n (c ∷ cs))))
              (pump_at s i)).sent)
          (omega arith)
      ∙ pump_live-number id waits n 0 (c ∷ cs) s

  -- For a client that is connected before the first frame is published: it is sent exactly the
  -- frames up to the first one whose event is `error` or `complete`, whatever comes after it, once
  -- each and in order.
  pub downstream_pump-first_terminal :
      (id : Text) (chunks : List StreamChunk) (waits : ℕ → ℕ)
      → (downstream_pump loads [] (polls_of waits 0 (texts_of codec (number id 0 chunks)))).sent
        ≡ texts_of codec (number id 0 (until_terminal chunks))
  unfolding downstream_pump flush_buffered
  downstream_pump-first_terminal id chunks waits = pump_live-number id waits 0 0 chunks []

  -- For an execution in which only the last frame has the event `error` or `complete`, and a client
  -- that subscribes when `i` frames are published, reads the buffer when `j` are, `i ≤ j`, and
  -- stays connected: it is sent every frame exactly once and in order, whatever the turns of the
  -- loop that bring no message.
  pub downstream_pump-once :
      (id : Text) (chunks : List StreamChunk) (i j : ℕ) (waits : ℕ → ℕ)
      → i ≤ j
      → j ≤ length chunks
      → EndsOnce chunks
      → (downstream_pump loads
          (texts_of codec (number id 0 (take j chunks)))
          (polls_of waits i (texts_of codec (number id i (drop i chunks))))).sent
        ≡ texts_of codec (number id 0 chunks)
  unfolding downstream_pump
  downstream_pump-once id chunks i j waits h le ends =
      ap
        (λ p.
          (pump_live loads (polls_of waits i (texts_of codec (number id i (drop i chunks))))
            p).sent)
        (flush_buffered-number id 0 (take j chunks) []
          ∙ ap (pump_at (texts_of codec (number id 0 (take j chunks))))
              (omega (arith, length-take j chunks le)))
      ∙ pump_live-number id waits i (j - i) (drop i chunks)
          (texts_of codec (number id 0 (take j chunks)))
      ∙ ap (λ l. texts_of codec (number id 0 (take j chunks)) ++ texts_of codec l)
          (ap (λ l. drop (j - i) (number id i l))
              (until_terminal-EndsOnce (drop i chunks) (EndsOnce-drop i chunks ends))
            ∙ drop-number (j - i) id i (drop i chunks)
            ∙ ap (number id (i + (j - i))) (drop-drop i (j - i) chunks)
            ∙ ap (λ m. number id m (drop m chunks)) (omega arith))
      ∙ sym (map-append codec.dumps (number id 0 (take j chunks)) (number id j (drop j chunks)))
      ∙ ap (texts_of codec) (
          ap (λ m. number id 0 (take j chunks) ++ number id m (drop j chunks)) (omega arith)
          ∙ number-take-drop j id 0 chunks)

  -- For an execution in which only the last frame has the event `error` or `complete`, and a client
  -- that reads the buffer when `j` frames are in it and whose subscription starts with the frame
  -- of number `i`, `j ≤ i`: it is sent every frame except those from `j` on and below `i`.
  pub downstream_pump-misses :
      (id : Text) (chunks : List StreamChunk) (i j : ℕ) (waits : ℕ → ℕ)
      → j ≤ i
      → i ≤ length chunks
      → EndsOnce chunks
      → (downstream_pump loads
          (texts_of codec (number id 0 (take j chunks)))
          (polls_of waits i (texts_of codec (number id i (drop i chunks))))).sent
        ≡ texts_of codec (take j (number id 0 chunks))
          ++ texts_of codec (drop i (number id 0 chunks))
  unfolding downstream_pump
  downstream_pump-misses id chunks i j waits h le ends =
      ap
        (λ p.
          (pump_live loads (polls_of waits i (texts_of codec (number id i (drop i chunks))))
            p).sent)
        (flush_buffered-number id 0 (take j chunks) []
          ∙ ap (pump_at (texts_of codec (number id 0 (take j chunks))))
              (omega (arith, length-take j chunks (omega arith))))
      ∙ pump_live-ahead id waits j i (drop i chunks) (texts_of codec (number id 0 (take j chunks)))
          h
      ∙ ap (λ l. texts_of codec (number id 0 (take j chunks)) ++ texts_of codec (number id i l))
          (until_terminal-EndsOnce (drop i chunks) (EndsOnce-drop i chunks ends))
      ∙ ap (λ l. texts_of codec l ++ texts_of codec (number id i (drop i chunks)))
          (sym (take-number j id 0 chunks))
      ∙ ap (λ l. texts_of codec (take j (number id 0 chunks)) ++ texts_of codec l)
          (ap (λ m. number id m (drop i chunks)) (omega arith) ∙ sym (drop-number i id 0 chunks))
