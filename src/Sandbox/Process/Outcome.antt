-- ===== src/Sandbox/Process/Outcome.antt =====
-- What a result of `execute` says of the run.
use mathlib.Core.Path.{subst}
use secure_remote_code_execu.Prelude.{
  ℕ, ◌≤◌, ◌<◌, ◌↔◌, ◌≡◌, refl, ap, sym, ◌∙◌, Bool, true, false, Bool-cases, inl, inr, Option, none,
  some, List, ok, err, All, if◌then◌else◌, arith,
}
use secure_remote_code_execu.Prelude.Texts.{Text}
use secure_remote_code_execu.Prelude.Int.{ℤ, pos, is_zero}
use secure_remote_code_execu.Utf8.Laws.{IsScalar}
use secure_remote_code_execu.Sandbox.Models.{completed, ExecutionRequest, ExecutionResult}
use secure_remote_code_execu.Sandbox.Polyglot.Strategy.{Strategy}
use secure_remote_code_execu.Sandbox.StreamConsumer.{new_consumer, get_full_stdout, get_full_stderr}
use secure_remote_code_execu.Sandbox.StreamConsumer.Holds.{
  IsText, consume_all, written_out, written_err,
}
use secure_remote_code_execu.Sandbox.StreamConsumer.Cap.{
  written, limit_exceeded_iff, consume_all_keeps,
}
use secure_remote_code_execu.Sandbox.Process.AtOnce.{
  at_once, written_out-at_once, written_err-at_once, at_once-IsText, consume_output-at_once,
}
use secure_remote_code_execu.Sandbox.Process.Command.{binary_name}
use secure_remote_code_execu.Sandbox.Process.{
  Host, Run, finished, overran, broken, Compilation, exited, not_found, overtime, failed, classify,
  consume_output, after_run, run_phase, compile_phase, or_else, execute_phases, execute_with,
  execute, report, input_of, source_name, compile_command,
}

-- The program ended with exit code 0, and the result has all of its output.
abbrev pub RanWell : Run → ExecutionResult → Type 0
RanWell (finished code o e) x =
    (code ≡ pos 0) × (x.exit_code ≡ some (pos 0)) × (x.stdout ≡ o) × (x.stderr ≡ e)
RanWell overran x = ⊥
RanWell (broken exc) x = ⊥

abbrev pub RunIsText : Run → Type 0
RunIsText (finished code o e) = All IsScalar o × All IsScalar e
RunIsText overran = Unit
RunIsText (broken exc) = Unit

is_zero→pos : (z : ℤ) → is_zero z ≡ true → z ≡ pos 0
is_zero→pos z h = ground arith

classify_completed :
    (limit : Bool) (code : ℤ)
    → classify false limit (some code) ≡ completed
    → (limit ≡ false) × (code ≡ pos 0)
unfolding classify
classify_completed true code h = absurd (cc h)
classify_completed false code h = elim (Bool-cases (is_zero code)) [
  | inl z ↦ (refl, is_zero→pos code z)
  | inr n ↦ absurd (cc (n, h))
]

not_over : (b : Bool) (m n : ℕ) → (b ≡ true) ↔ (m < n) → b ≡ false → n ≤ m
not_over b m n h k = ground arith

-- A consumer that did not reach its limit has all of the output.
pub keeps_whole :
    (now : Text) (m : ℕ) (o e : Text)
    → All IsScalar o
    → All IsScalar e
    → (consume_output now o e (new_consumer m)).limit_exceeded ≡ false
    → (get_full_stdout (consume_output now o e (new_consumer m)) ≡ o)
      × (get_full_stderr (consume_output now o e (new_consumer m)) ≡ e)
keeps_whole now m o e ho he room =
    let same : consume_output now o e (new_consumer m)
        ≡ consume_all now (at_once o e) (new_consumer m) =
      consume_output-at_once now o e (new_consumer m) in
    let texts : All IsText (at_once o e) = at_once-IsText o e ho he in
    let kept : (get_full_stdout (consume_all now (at_once o e) (new_consumer m))
          ≡ written_out (at_once o e))
        × (get_full_stderr (consume_all now (at_once o e) (new_consumer m))
            ≡ written_err (at_once o e)) =
      consume_all_keeps now m (at_once o e) texts (
        not_over _ m (written (at_once o e)) (limit_exceeded_iff now m (at_once o e) texts)
          (ap (λ c. c.limit_exceeded) (sym same) ∙ room)) in
    (
      ap get_full_stdout same ∙ kept.0 ∙ written_out-at_once o e,
      ap get_full_stderr same ∙ kept.1 ∙ written_err-at_once o e,
    )

after_run_completed :
    (now : Text) (host : Host) (r : ExecutionRequest) (run : Run)
    → RunIsText run
    → (after_run now host r run).status ≡ completed
    → RanWell run (after_run now host r run)
unfolding after_run report classify
after_run_completed now host r (finished code o e) h c =
    let done : ((consume_output now o e (new_consumer r.max_output_bytes)).limit_exceeded ≡ false)
        × (code ≡ pos 0) =
      classify_completed _ code c in
    let kept = keeps_whole now r.max_output_bytes o e h.0 h.1 done.0 in
    (done.1, ap (λ z. some z) done.1, kept.0, kept.1)
after_run_completed now host r overran h c = absurd (cc c)
after_run_completed now host r (broken exc) h c = absurd (cc c)

-- The target of the run of a language.
abbrev pub target_of : Host → Strategy → Bool → Text
target_of host s is_compiled =
    host.in_directory (if is_compiled then binary_name host.platform else source_name s)

abbrev pub run_at : Host → ExecutionRequest → Strategy → Bool → Run
run_at host r s is_compiled =
    host.run (s.get_execution_command (target_of host s is_compiled)) (input_of r.stdin_data)
      r.timeout_ms

abbrev pub run_of : Host → ExecutionRequest → Strategy → Run
run_of host r s = run_at host r s s.is_compiled

abbrev phases : Text → Host → ExecutionRequest → Strategy → Bool → ExecutionResult
phases now host r s is_compiled =
    if is_compiled
    then or_else
        (compile_phase host (compile_command host s) (host.compile (compile_command host s)))
        (run_phase now host r s (host.in_directory (binary_name host.platform)))
    else run_phase now host r s (host.in_directory (source_name s))

or_else_completed :
    (host : Host) (command : List Text) (compilation : Compilation) (later : ExecutionResult)
    → (or_else (compile_phase host command compilation) later).status ≡ completed
    → or_else (compile_phase host command compilation) later ≡ later
unfolding compile_phase
or_else_completed host command (exited code o e) later h = elim (Bool-cases (is_zero code)) [
  | inl z ↦ rw (z) refl
  | inr n ↦ absurd (cc (n, h))
]
or_else_completed host command (not_found fnf) later h = absurd (cc h)
or_else_completed host command overtime later h = absurd (cc h)
or_else_completed host command (failed exc) later h = absurd (cc h)

phases_completed :
    (now : Text) (host : Host) (r : ExecutionRequest) (s : Strategy) (is_compiled : Bool)
    → RunIsText (run_at host r s is_compiled)
    → (phases now host r s is_compiled).status ≡ completed
    → RanWell (run_at host r s is_compiled) (phases now host r s is_compiled)
unfolding run_phase
phases_completed now host r s false text h =
    after_run_completed now host r (run_at host r s false) text h
phases_completed now host r s true text h =
    let command = compile_command host s in
    let later : ExecutionResult = after_run now host r (run_at host r s true) in
    let e : or_else (compile_phase host command (host.compile command)) later ≡ later =
      or_else_completed host command (host.compile command) later h in
    subst (λ x. RanWell (run_at host r s true) x) (sym e)
      (after_run_completed now host r (run_at host r s true) text (ap (λ x. x.status) (sym e) ∙ h))

execute_with_completed :
    (now : Text) (host : Host) (r : ExecutionRequest) (s : Strategy) (exc : Option Text)
    → RunIsText (run_of host r s)
    → (execute_with now host r s exc).status ≡ completed
    → RanWell (run_of host r s) (execute_with now host r s exc)
unfolding execute_with execute_phases
execute_with_completed now host r s none text h = phases_completed now host r s s.is_compiled text h
execute_with_completed now host r s (some exc) text h = absurd (cc h)

-- For a program whose output is text, in a language that is supported: if the status of the result
-- is COMPLETED, the program was run and ended with exit code 0, and the result has all of its two
-- outputs, neither of them cut.
pub execute_completed :
    (now : Text) (host : Host) (r : ExecutionRequest) (s : Strategy) (x : ExecutionResult)
    → RunIsText (run_of host r s)
    → execute now host r (ok s) ≡ ok x
    → x.status ≡ completed
    → RanWell (run_of host r s) x
unfolding execute
execute_completed now host r s x text e h =
    let same : execute_with now host r s host.prepare ≡ x =
      ap (λ y. elim y [ ok a ↦ a | err exc ↦ x ]) e in
    subst (λ y. RanWell (run_of host r s) y) same
      (execute_with_completed now host r s host.prepare text (ap (λ y. y.status) same ∙ h))
