-- ===== src/PyStr/Strip.antt =====
-- Laws of `strip_end`.
use secure_remote_code_execu.Prelude.{
  ◌≡◌, refl, Bool, ◌&&◌, List, [], ◌∷◌, arith, All, Bool-cases, inl, inr,
}
use secure_remote_code_execu.PyStr.{strip_end, is_nil}

module _ {ℓ} {A : Type ℓ} (p : A → Bool) where
  -- What every element satisfies, the elements that stay satisfy.
  pub All-strip_end {κ} : (P : A → Type κ) (xs : List A) → All P xs → All P (strip_end p xs)
  unfolding strip_end
  All-strip_end P [] h = h
  All-strip_end P (x ∷ xs) h = elim (Bool-cases (p x && is_nil (strip_end p xs))) [
    | inl gone ↦ rw gone tt
    | inr kept ↦ rw kept (h.0, All-strip_end P xs h.1)
  ]

  -- Stripping twice is stripping once.
  pub strip_end_idem : (xs : List A) → strip_end p (strip_end p xs) ≡ strip_end p xs
  unfolding strip_end
  strip_end_idem [] = refl
  strip_end_idem (x ∷ xs) = ground (arith, strip_end_idem xs)
