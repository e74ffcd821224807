-- ===== src/Grading/Verifier.antt =====
-- worker/grading/verifier.py: `ResultVerifier.verify`. The four modes are all members of the
-- enum, so the code behind them, for any other mode, is not reached and not modelled.
pub mod Modes
pub mod Tolerance
use secure_remote_code_execu.Prelude.{
  ℕ, ◌+◌, Bool, true, false, not, ◌&&◌, ◌||◌, Option, none, some, List, [], ◌∷◌, ◌++◌, length, ◌==◌,
  nat_eq, list_eq, if◌then◌else◌,
}
use secure_remote_code_execu.Prelude.Texts.{Text, codes, join, show_nat}
use secure_remote_code_execu.Prelude.Int.{pos}
use secure_remote_code_execu.Grading.Floats.{Floats}
use secure_remote_code_execu.Grading.Models.{ComparisonMode, normalized, strict, token, epsilon}
use secure_remote_code_execu.Grading.Normalizer.{normalize_text, tokenize, generate_diff}

-- `(is_correct, diff_string, failure_reason)`
abbrev pub Outcome : Type 0
Outcome = Bool × Option Text × Option Text

abbrev pub accept : Outcome
accept = (true, none, none)

abbrev pub reject : Text → Text → Outcome
reject diff reason = (false, some diff, some reason)

abbrev pub space : Text
space = codes " "

pub count_mismatch : List Text → List Text → Text
count_mismatch actual expected =
    codes "Token count mismatch ("
    ++ (show_nat (length actual) ++ (codes " vs " ++ (show_nat (length expected) ++ codes ")")))

module _ (F : Floats) where
  open F use {
    Float, parse, of_int, minus, divided, abs, maximum, at_most, is_nan, micro, show, show_2e,
  }

  -- The absolute or relative difference is within epsilon.
  pub is_close : Float → Float → Bool
  is_close val_act val_exp =
      let diff_val = abs (minus val_act val_exp) in
      at_most diff_val micro
      || (at_most (divided diff_val (maximum (of_int (pos 1)) (abs val_exp))) micro
          && not (is_nan diff_val))

  divergence : ℕ → Float → Float → Text
  divergence idx val_act val_exp =
      codes "Floating point divergence at token index "
      ++ (show_nat idx
          ++ (codes ": "
              ++ (show val_act
                  ++ (codes " vs "
                      ++ (show val_exp
                          ++ (codes " (diff="
                              ++ (show_2e (abs (minus val_act val_exp))
                                  ++ (codes " > eps=" ++ (show micro ++ codes ")")))))))))

  string_mismatch : ℕ → Text → Text → Text
  string_mismatch idx tok_act tok_exp =
      codes "String mismatch at token index "
      ++ (show_nat idx ++ (codes ": '" ++ (tok_act ++ (codes "' vs '" ++ (tok_exp ++ codes "'")))))

  compare_texts : ℕ → Text → Text → Option Text
  unfolding string_mismatch
  compare_texts idx tok_act tok_exp =
      if tok_act == tok_exp then none else some (string_mismatch idx tok_act tok_exp)

  compare_numbers : ℕ → Float → Float → Option Text
  unfolding is_close divergence
  compare_numbers idx val_act val_exp =
      if is_close val_act val_exp then none else some (divergence idx val_act val_exp)

  -- One round of the loop: the reason for which it returns, if it does. The first token that is
  -- no number raises the `ValueError` that sends both to the comparison of texts.
  pub compare_tokens : ℕ → Text → Text → Option Text
  unfolding compare_texts compare_numbers
  compare_tokens idx tok_act tok_exp = elim (parse tok_act) [
    | none ↦ compare_texts idx tok_act tok_exp
    | some val_act ↦ elim (parse tok_exp) [
      | none ↦ compare_texts idx tok_act tok_exp
      | some val_exp ↦ compare_numbers idx val_act val_exp
    ]
  ]

  -- The loop over the zipped tokens, from the index `idx` on.
  pub compare_from : ℕ → List Text → List Text → Option Text
  unfolding compare_tokens
  compare_from idx [] expected = none
  compare_from idx (a ∷ actual) [] = none
  compare_from idx (a ∷ actual) (e ∷ expected) =
      let rest = compare_from (idx + 1) actual expected in
      elim (compare_tokens idx a e) [ some reason ↦ some reason | none ↦ rest ]

module _ (F : Floats) (unified_diff : List Text → List Text → List Text) where
  -- The tolerance is the default of the parameter `epsilon`, 1e-6: no caller gives another one.
  unfoldable pub verify : ComparisonMode → Text → Text → Outcome
  verify strict actual expected =
      if actual == expected
      then accept
      else reject (generate_diff unified_diff expected actual)
          (codes "Strict byte-for-byte mismatch")
  verify normalized actual expected =
      let norm_actual = normalize_text actual in
      let norm_expected = normalize_text expected in
      if norm_actual == norm_expected
      then accept
      else reject (generate_diff unified_diff norm_expected norm_actual)
          (codes "Output mismatch after whitespace normalization")
  verify token actual expected =
      let tokens_actual = tokenize actual in
      let tokens_expected = tokenize expected in
      if tokens_actual == tokens_expected
      then accept
      else reject
          (generate_diff unified_diff (join space tokens_expected) (join space tokens_actual))
          (if length tokens_actual == length tokens_expected
            then codes "Token value mismatch"
            else count_mismatch tokens_actual tokens_expected)
  verify epsilon actual expected =
      let tokens_actual = tokenize actual in
      let tokens_expected = tokenize expected in
      if length tokens_actual == length tokens_expected
      then elim (compare_from F 0 tokens_actual tokens_expected) [
        | none ↦ accept
        | some reason ↦ reject (generate_diff unified_diff expected actual) reason
      ]
      else reject
          (generate_diff unified_diff (join space tokens_expected) (join space tokens_actual))
          (count_mismatch tokens_actual tokens_expected)
