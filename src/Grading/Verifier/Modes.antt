-- ===== src/Grading/Verifier/Modes.antt =====
-- How the comparison modes relate, and when a verdict comes with a reason.
use secure_remote_code_execu.Prelude.{
  ◌≡◌, ap, sym, ◌∙◌, List, eq_iff, eq_refl, list_eq, nat_eq, arith,
}
use secure_remote_code_execu.Prelude.Texts.{Text}
use secure_remote_code_execu.Grading.Floats.{Floats}
use secure_remote_code_execu.Grading.Models.{normalized, strict, token}
use secure_remote_code_execu.Grading.Normalizer.{normalize_text, tokenize}
use secure_remote_code_execu.Grading.Normalizer.Laws.{tokenize-normalize_text}
use secure_remote_code_execu.Grading.Verifier.{accept, verify}

module _ (F : Floats) (unified_diff : List Text → List Text → List Text)
    (actual expected : Text) where
  normalized_accepts :
      normalize_text actual ≡ normalize_text expected
      → verify F unified_diff normalized actual expected ≡ accept
  unfolding verify
  normalized_accepts e = rw (e, eq_refl (normalize_text expected))

  token_accepts :
      tokenize actual ≡ tokenize expected → verify F unified_diff token actual expected ≡ accept
  unfolding verify
  token_accepts e = rw (e, eq_refl (tokenize expected))

  strict_equal : verify F unified_diff strict actual expected ≡ accept → actual ≡ expected
  unfolding verify
  strict_equal h = ground (arith, eq_iff actual expected)

  normalized_equal :
      verify F unified_diff normalized actual expected ≡ accept
      → normalize_text actual ≡ normalize_text expected
  unfolding verify
  normalized_equal h = ground (arith, eq_iff (normalize_text actual) (normalize_text expected))

  -- Output that passes the strict comparison passes the normalized one.
  pub strict_normalized :
      verify F unified_diff strict actual expected ≡ accept
      → verify F unified_diff normalized actual expected ≡ accept
  strict_normalized h = normalized_accepts (ap normalize_text (strict_equal h))

  -- Output that passes the normalized comparison passes the comparison of words.
  pub normalized_token :
      verify F unified_diff normalized actual expected ≡ accept
      → verify F unified_diff token actual expected ≡ accept
  normalized_token h = token_accepts (
      sym (tokenize-normalize_text actual)
      ∙ ap tokenize (normalized_equal h)
      ∙ tokenize-normalize_text expected)
