-- ===== src/Tasks/Daemon/Runs.antt =====
-- Runs of the daemon: the order in which it takes jobs.
use mathlib.Core.List.{append_assoc}
use secure_remote_code_execu.Prelude.{
  ◌-◌, ◌≡◌, refl, ap, sym, ◌∙◌, true, false, Option, none, some, List, [], ◌∷◌, ◌++◌, length, arith,
}
use secure_remote_code_execu.Prelude.Texts.{Text}
use secure_remote_code_execu.Tasks.Daemon.{
  Services, Daemon, handle_payload, pop_last, take_job, turn,
}
use secure_remote_code_execu.Tasks.Daemon.Turns.{
  oldest_first, Popped, nothing, popped, pop_last-Popped, handle_payload-Keeps,
}

-- What has been pushed, and the state, after any pushes, stops and turns in any order.
pub data Reach (S : Services) (start : Daemon S) : List Text → Daemon S → Type 0 where
  here : Reach S start [] start
  push :
      {l : List Text} {d : Daemon S} (raw : Text)
      → Reach S start l d
      → Reach S start (l ++ raw ∷ []) (record d { queue = raw ∷ d.queue })
  stop :
      {l : List Text} {d : Daemon S}
      → Reach S start l d
      → Reach S start l (record d { running = false })
  work :
      {l : List Text} {d : Daemon S}
      → d.running ≡ true
      → Reach S start l d
      → Reach S start l (turn S d)

module _ (S : Services) where
  -- A turn takes the oldest job, if there is one.
  record Took (d e : Daemon S) : Type 0 where
    order : e.taken ++ oldest_first e.queue ≡ d.taken ++ oldest_first d.queue
    fewer : length e.queue ≡ length d.queue - 1
    running : e.running ≡ d.running

  take_job-Took :
      (d : Daemon S) (r : Option (List Text × Text)) → Popped d.queue r → Took d (take_job S d r)
  take_job-Took d none (nothing e f) = record { order = refl; fewer = rw (e) refl; running = refl }
  take_job-Took d (some x) (nothing e f) = absurd (cc f)
  take_job-Took d none (popped before raw e f g) = absurd (cc e)
  take_job-Took d (some (b, raw)) (popped before raw' e f g) =
      let kept = handle_payload-Keeps S raw (record d { queue = b; taken = d.taken ++ raw ∷ [] }) in
      let same : ◌≡◌ {A = List Text × Text} (b, raw) (before, raw') = cc e in
      record {
        order =
            ap
              (λ t.
                t
                ++ oldest_first
                    (handle_payload S raw
                      (record d { queue = b; taken = d.taken ++ raw ∷ [] })).queue)
              kept.taken
            ∙ ap (λ q. (d.taken ++ raw ∷ []) ++ oldest_first q) kept.queue
            ∙ append_assoc d.taken (raw ∷ []) (oldest_first b)
            ∙ ap (λ p. d.taken ++ p.1 ∷ oldest_first p.0) same
            ∙ ap (λ l. d.taken ++ l) (sym f);
        fewer = ap length kept.queue ∙ ap (λ p. length p.0) same ∙ omega (arith, g);
        running = kept.running;
      }

  turn-Took : (d : Daemon S) → Took d (turn S d)
  unfolding turn
  turn-Took d = take_job-Took d (pop_last d.queue) (pop_last-Popped d.queue)

-- In any run from an empty queue, with pushes, stops and turns in any order: the jobs that were taken,
-- followed by those that wait, are the jobs that were pushed, each once and in the order of the pushes.
pub Reach-order :
    {S : Services} {start d : Daemon S} {l : List Text}
    → start.queue ≡ []
    → start.taken ≡ []
    → Reach S start l d
    → d.taken ++ oldest_first d.queue ≡ l
Reach-order {S} {start} q t here = ap (λ l. l ++ oldest_first start.queue) t ∙ ap oldest_first q
Reach-order {S} q t (push {l} {d} raw r) =
    sym (append_assoc d.taken (oldest_first d.queue) (raw ∷ []))
    ∙ ap (λ x. x ++ raw ∷ []) (Reach-order q t r)
Reach-order {S} q t (stop r) = Reach-order q t r
Reach-order {S} q t (work {l} {d} on r) = (turn-Took S d).order ∙ Reach-order q t r
