-- ===== src/Grading/Harness/Tally.antt =====
-- The totals that the loop keeps, and the verdicts that it lists, after each test case.
use mathlib.Core.List.{append_assoc, foldl, foldl-append, append-nil}
use secure_remote_code_execu.Prelude.{
  Option, ◌⊎◌, ◌≤◌, ◌<◌, length-append, ℕ, ◌≡◌, refl, sym, ◌∙◌, none, List, [], ◌∷◌, ◌++◌, map, All,
  All-append, sum_of, sum_of-append, length, Bool-cases, inl, inr, arith,
}
use secure_remote_code_execu.Prelude.Texts.{Text}
use secure_remote_code_execu.Prelude.Int.{ℤ, pos, sum_ℤ, sum_from-append}
use secure_remote_code_execu.Sandbox.Models.{ExecutionResult}
use secure_remote_code_execu.Grading.Models.{TestCaseData, TestCaseVerdict}
use secure_remote_code_execu.Grading.Harness.{
  Progress, begin, not_compiled, compile_failed, append, charge, or_zero,
}
use secure_remote_code_execu.Grading.Harness.Step.{
  IsSound, IsAbout, one_if, larger, Adds, not_compiled-Adds, not_compiled-charged,
}

abbrev pub earned : TestCaseVerdict → ℤ
earned v = v.earned_points

abbrev pub passes : TestCaseVerdict → ℕ
passes v = one_if v.passed

abbrev pub duration : TestCaseVerdict → ℕ
duration v = v.duration_ms

abbrev pub peak_step : ℕ → TestCaseVerdict → ℕ
peak_step m v = larger m v.memory_bytes

-- The totals kept beside the verdicts are the totals over the verdicts.
pub record IsTallied (p : Progress) : Type 0 where
  pub sound : All IsSound p.test_case_results
  pub score : p.total_score ≡ sum_ℤ earned p.test_case_results
  pub count : p.passed_count ≡ sum_of passes p.test_case_results
  pub time : p.total_exec_time ≡ sum_of duration p.test_case_results
  pub peak : p.peak_memory ≡ foldl peak_step 0 p.test_case_results

-- The verdicts are about the test cases, one each, in order.
abbrev pub Matches : List TestCaseData → List TestCaseVerdict → Type 0
Matches [] [] = Unit
Matches [] (v ∷ vs) = ⊥
Matches (tc ∷ tcs) [] = ⊥
Matches (tc ∷ tcs) (v ∷ vs) = IsAbout tc v × Matches tcs vs

Matches-append :
    (tcs tcs' : List TestCaseData) (vs vs' : List TestCaseVerdict)
    → Matches tcs vs
    → Matches tcs' vs'
    → Matches (tcs ++ tcs') (vs ++ vs')
Matches-append [] tcs' [] vs' h k = k
Matches-append [] tcs' (v ∷ vs) vs' h k = absurd h
Matches-append (tc ∷ tcs) tcs' [] vs' h k = absurd h
Matches-append (tc ∷ tcs) tcs' (v ∷ vs) vs' h k = (h.0, Matches-append tcs tcs' vs vs' h.1 k)

pub IsTallied-begin : IsTallied begin
IsTallied-begin = record { sound = tt; score = refl; count = refl; time = refl; peak = refl }

module _ {tc : TestCaseData} {v : TestCaseVerdict} {p p' : Progress} (adds : Adds tc v p p') where
  open adds use {about, sound, results, score, count, time, peak}

  IsTallied-Adds : IsTallied p → IsTallied p'
  IsTallied-Adds h = record {
    sound = rw results (All-append IsSound p.test_case_results (v ∷ []) h.sound (sound, tt));
    score =
        rw (results, score, h.score)
          (sym (sum_from-append earned (pos 0) p.test_case_results (v ∷ [])));
    count =
        rw results
          (omega (arith, sum_of-append passes p.test_case_results (v ∷ []), count, h.count));
    time =
        rw results
          (omega (arith, sum_of-append duration p.test_case_results (v ∷ []), time, h.time));
    peak = rw (results, peak, h.peak) (sym (foldl-append _ _ p.test_case_results (v ∷ [])));
  }

  Matches-Adds :
      (tcs : List TestCaseData)
      → Matches tcs p.test_case_results
      → Matches (tcs ++ tc ∷ []) p'.test_case_results
  Matches-Adds tcs h =
      rw results (Matches-append tcs (tc ∷ []) p.test_case_results (v ∷ []) h (about, tt))

-- The totals do not depend on the compile error, and rest on the list of the verdicts.
IsTallied-results :
    {p : Progress} (c : Option Text) (vs : List TestCaseVerdict)
    → p.test_case_results ≡ vs
    → IsTallied p
    → IsTallied (record p { compile_error_output = c; test_case_results = vs })
IsTallied-results c vs e h = record {
  sound = rw (← e) h.sound;
  score = rw (← e) h.score;
  count = rw (← e) h.count;
  time = rw (← e) h.time;
  peak = rw (← e) h.peak;
}

IsTallied-remaining :
    (p : Progress) (tcs : List TestCaseData)
    → IsTallied p
    → IsTallied (record p { test_case_results = p.test_case_results ++ map (not_compiled 0 0) tcs })
unfolding append
IsTallied-remaining p [] h = IsTallied-results p.compile_error_output _ (sym (append-nil _)) h
IsTallied-remaining p (tc ∷ tcs) h =
    IsTallied-results p.compile_error_output _
      (append_assoc p.test_case_results (not_compiled 0 0 tc ∷ []) (map (not_compiled 0 0) tcs))
      (IsTallied-remaining (append p (not_compiled 0 0 tc)) tcs
        (IsTallied-Adds (not_compiled-Adds tc p) h))

Matches-remaining : (tcs : List TestCaseData) → Matches tcs (map (not_compiled 0 0) tcs)
Matches-remaining [] = tt
Matches-remaining (tc ∷ tcs) = ((not_compiled-Adds tc begin).about, Matches-remaining tcs)

-- A compile error leaves a test case that did not pass.
abbrev pub FailsIfNotCompiled : Progress → Type 0
FailsIfNotCompiled p =
    (p.compile_error_output ≡ none)
    ⊎ (sum_of passes p.test_case_results < length p.test_case_results)

-- What an evaluation has established after the test cases `seen`.
abbrev pub Ends : List TestCaseData → Progress → Type 0
Ends seen p = IsTallied p × Matches seen p.test_case_results × FailsIfNotCompiled p

passes-le : (v : TestCaseVerdict) → passes v ≤ 1
passes-le v = elim (Bool-cases v.passed) [ inl e ↦ rw e (omega arith) | inr e ↦ rw e (omega arith) ]

pub sum_of-passes-le : (vs : List TestCaseVerdict) → sum_of passes vs ≤ length vs
sum_of-passes-le [] = omega arith
sum_of-passes-le (v ∷ vs) = omega (arith, passes-le v, sum_of-passes-le vs)

passes-not_compiled : (tcs : List TestCaseData) → sum_of passes (map (not_compiled 0 0) tcs) ≡ 0
unfolding not_compiled
passes-not_compiled [] = refl
passes-not_compiled (tc ∷ tcs) = omega (arith, passes-not_compiled tcs)

-- One failing verdict among others keeps the count below the number of verdicts.
fails_among :
    (us : List TestCaseVerdict) (v : TestCaseVerdict) (vs : List TestCaseVerdict)
    → passes v ≡ 0
    → sum_of passes ((us ++ v ∷ []) ++ vs) < length ((us ++ v ∷ []) ++ vs)
fails_among us v vs h = rw (append_assoc us (v ∷ []) vs) (
    omega (
      arith,
      sum_of-append passes us (v ∷ vs),
      length-append us (v ∷ vs),
      sum_of-passes-le us,
      sum_of-passes-le vs,
    ))

pub compile_failed-Ends :
    (seen : List TestCaseData) (tc : TestCaseData) (rest : List TestCaseData) (r : ExecutionResult)
    (p : Progress)
    → Ends seen p
    → Ends (seen ++ tc ∷ rest) (compile_failed tc rest r (charge r p))
unfolding compile_failed append charge
compile_failed-Ends seen tc rest r p (tallied, matches, _) =
    let v = not_compiled r.execution_time_ms (or_zero r.peak_memory_bytes) tc in
    let adds = not_compiled-charged tc r p in
    (
      IsTallied-results _ _ refl
          (IsTallied-remaining (append (charge r p) v) rest (IsTallied-Adds adds tallied)),
      rw (append_assoc p.test_case_results (v ∷ []) (map (not_compiled 0 0) rest)) (
          Matches-append seen (tc ∷ rest) p.test_case_results (v ∷ map (not_compiled 0 0) rest)
            matches (adds.about, Matches-remaining rest)),
      inr (
          fails_among p.test_case_results v (map (not_compiled 0 0) rest)
            (unfold not_compiled in refl)),
    )

pub Ends-Adds :
    (seen : List TestCaseData) {tc : TestCaseData} {p p' : Progress}
    → (v : TestCaseVerdict) × Adds tc v p p'
    → Ends seen p
    → Ends (seen ++ tc ∷ []) p'
Ends-Adds seen {tc} {p} {p'} (v, adds) (tallied, matches, fails) =
    (IsTallied-Adds adds tallied, Matches-Adds adds seen matches, still fails)
  where
    still : FailsIfNotCompiled p → FailsIfNotCompiled p'
    still (inl e) = inl (adds.compiled ∙ e)
    still (inr e) = inr (
        rw adds.results (
          omega (
            arith,
            sum_of-append passes p.test_case_results (v ∷ []),
            length-append p.test_case_results (v ∷ []),
            passes-le v,
          )))
