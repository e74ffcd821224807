-- ===== src/Grading/Verifier/Tolerance.antt =====
-- What the tolerant comparison accepts: token lists of one length that agree place by place.
use secure_remote_code_execu.Prelude.{
  ℕ, ◌+◌, ◌≡◌, ◌↔◌, ◌⊎◌, inl, inr, refl, true, none, some, List, [], ◌∷◌, length, eq_iff, eq_refl,
  list_eq, nat_eq, ◌==◌, arith, Bool-cases, Option-cases,
}
use secure_remote_code_execu.Prelude.Texts.{Text}
use secure_remote_code_execu.Grading.Floats.{Floats}
use secure_remote_code_execu.Grading.Models.{epsilon}
use secure_remote_code_execu.Grading.Normalizer.{tokenize}
use secure_remote_code_execu.Grading.Verifier.{
  accept, verify, is_close, compare_texts, compare_numbers, compare_tokens, compare_from,
}

module _ (F : Floats) where
  open F use {parse}

  -- Two tokens agree: as numbers that are close, or, if one is no number, as texts.
  pub data Agree (a e : Text) : Type 0 where
    numbers :
        (x y : F.Float) → parse a ≡ some x → parse e ≡ some y → is_close F x y ≡ true → Agree a e
    texts : (parse a ≡ none) ⊎ (parse e ≡ none) → a ≡ e → Agree a e

  abbrev pub AllAgree : List Text → List Text → Type 0
  AllAgree [] [] = Unit
  AllAgree [] (e ∷ es) = ⊥
  AllAgree (a ∷ r) [] = ⊥
  AllAgree (a ∷ r) (e ∷ es) = Agree a e × AllAgree r es

  compare_texts_iff : (i : ℕ) (a e : Text) → (compare_texts F i a e ≡ none) ↔ (a ≡ e)
  unfolding compare_texts
  compare_texts_iff i a e = ground (arith, eq_iff a e)

  compare_numbers_iff :
      (i : ℕ) (x y : F.Float) → (compare_numbers F i x y ≡ none) ↔ (is_close F x y ≡ true)
  unfolding compare_numbers
  compare_numbers_iff i x y = ground arith

  compare_tokens-Agree : (i : ℕ) (a e : Text) → compare_tokens F i a e ≡ none → Agree a e
  unfolding compare_tokens
  compare_tokens-Agree i a e h = elim (Option-cases (parse a)) [
    | inl p ↦ texts (inl p) ((compare_texts_iff i a e).0 (rw (p, compare_tokens) at h))
    | inr (x, p) ↦ elim (Option-cases (parse e)) [
      | inl q ↦ texts (inr q) ((compare_texts_iff i a e).0 (rw (p, q, compare_tokens) at h))
      | inr (y, q) ↦
          numbers x y p q ((compare_numbers_iff i x y).0 (rw (p, q, compare_tokens) at h))
    ]
  ]

  Agree-compare_tokens : (i : ℕ) (a e : Text) → Agree a e → compare_tokens F i a e ≡ none
  unfolding compare_tokens
  Agree-compare_tokens i a e (numbers x y p q c) =
      rw (p, q, compare_tokens) ((compare_numbers_iff i x y).1 c)
  Agree-compare_tokens i a e (texts (inl p) s) =
      rw (p, compare_tokens) ((compare_texts_iff i a e).1 s)
  Agree-compare_tokens i a e (texts (inr q) s) = elim (Option-cases (parse a)) [
    | inl p ↦ rw (p, compare_tokens) ((compare_texts_iff i a e).1 s)
    | inr (x, p) ↦ rw (p, q, compare_tokens) ((compare_texts_iff i a e).1 s)
  ]

  compare_from-AllAgree :
      (i : ℕ) (r es : List Text)
      → length r ≡ length es
      → compare_from F i r es ≡ none
      → AllAgree r es
  unfolding compare_from
  compare_from-AllAgree i [] [] l h = tt
  compare_from-AllAgree i [] (e ∷ es) l h = absurd (omega arith)
  compare_from-AllAgree i (a ∷ r) [] l h = absurd (omega arith)
  compare_from-AllAgree i (a ∷ r) (e ∷ es) l h = elim (Option-cases (compare_tokens F i a e)) [
    | inl p ↦ (
      compare_tokens-Agree i a e p,
      compare_from-AllAgree (i + 1) r es (omega arith) (rw (p, compare_from) at h),
    )
    | inr (m, p) ↦ absurd (cc (rw (p, compare_from) at h))
  ]

  AllAgree-compare_from : (i : ℕ) (r es : List Text) → AllAgree r es → compare_from F i r es ≡ none
  unfolding compare_from
  AllAgree-compare_from i [] [] h = refl
  AllAgree-compare_from i [] (e ∷ es) h = absurd h
  AllAgree-compare_from i (a ∷ r) [] h = absurd h
  AllAgree-compare_from i (a ∷ r) (e ∷ es) h =
      rw (Agree-compare_tokens i a e h.0, compare_from) (AllAgree-compare_from (i + 1) r es h.1)

  AllAgree-length : (r es : List Text) → AllAgree r es → length r ≡ length es
  AllAgree-length [] [] h = refl
  AllAgree-length [] (e ∷ es) h = absurd h
  AllAgree-length (a ∷ r) [] h = absurd h
  AllAgree-length (a ∷ r) (e ∷ es) h = omega (arith, AllAgree-length r es h.1)

  verify_epsilon-AllAgree :
      (unified_diff : List Text → List Text → List Text) (actual expected : Text)
      → verify F unified_diff epsilon actual expected ≡ accept
      → AllAgree (tokenize actual) (tokenize expected)
  unfolding verify
  verify_epsilon-AllAgree d actual expected h =
      elim (Bool-cases (length (tokenize actual) == length (tokenize expected))) [
        | inl same ↦ elim (Option-cases (compare_from F 0 (tokenize actual) (tokenize expected))) [
          | inl p ↦ compare_from-AllAgree 0 (tokenize actual) (tokenize expected) (ground arith) p
          | inr (m, p) ↦ absurd (cc (rw (same, p) at h))
        ]
        | inr other ↦ absurd (cc (rw other at h))
      ]

  AllAgree-verify_epsilon :
      (unified_diff : List Text → List Text → List Text) (actual expected : Text)
      → AllAgree (tokenize actual) (tokenize expected)
      → verify F unified_diff epsilon actual expected ≡ accept
  unfolding verify
  AllAgree-verify_epsilon d actual expected h = rw (
    AllAgree-length (tokenize actual) (tokenize expected) h,
    eq_refl (length (tokenize expected)),
    AllAgree-compare_from 0 (tokenize actual) (tokenize expected) h,
  )

  -- The tolerant comparison accepts exactly the outputs with as many words as expected, where each
  -- word agrees with the expected one: both are numbers within the tolerance, absolute or
  -- relative, or one is no number and they are the same text.
  pub verify_epsilon_iff :
      (unified_diff : List Text → List Text → List Text) (actual expected : Text)
      → (verify F unified_diff epsilon actual expected ≡ accept)
        ↔ AllAgree (tokenize actual) (tokenize expected)
  verify_epsilon_iff d actual expected =
      (verify_epsilon-AllAgree d actual expected, AllAgree-verify_epsilon d actual expected)
