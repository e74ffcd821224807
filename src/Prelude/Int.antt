-- ===== src/Prelude/Int.antt =====
-- Python's signed integers, for exit codes, weights and scores.
use Prim.Native.Nat.{ℕ, suc, ◌+◌, ◌-◌, ◌≤◌}
use mathlib.Core.Path.{◌≡◌, refl, ◌∙◌, ap}
use mathlib.Core.Bool.{Bool, false}
use mathlib.Core.List.{List, [], ◌∷◌, ◌++◌}
use native.Mathlib.Omega.{arith}
use secure_remote_code_execu.Prelude.Tests.{◌==◌, nat_eq, ltb, leb, if◌then◌else◌}
use secure_remote_code_execu.Prelude.Texts.{Text, show_nat}

-- `negsuc n` is -(n + 1)
pub data ℤ : Type 0 where
  pos : ℕ → ℤ
  negsuc : ℕ → ℤ

abbrev pub is_zero : ℤ → Bool
is_zero (pos n) = n == 0
is_zero (negsuc n) = false

-- `str(i)`
pub show_int : ℤ → Text
unfolding show_nat
show_int (pos n) = show_nat n
show_int (negsuc n) = b'-' ∷ show_nat (n + 1)

abbrev pub pos_part : ℤ → ℕ
pos_part (pos n) = n
pos_part (negsuc n) = 0

abbrev pub neg_part : ℤ → ℕ
neg_part (pos n) = 0
neg_part (negsuc n) = suc n

-- a - b, as an integer.
abbrev pub sub_ℕ : ℕ → ℕ → ℤ
sub_ℕ a b = if leb b a then pos (a - b) else negsuc (b - a - 1)

infixl 65 ◌+ℤ◌
infix 50 ◌≤ℤ◌
unfoldable pub ◌+ℤ◌ : ℤ → ℤ → ℤ
a +ℤ b = sub_ℕ (pos_part a + pos_part b) (neg_part a + neg_part b)

abbrev pub ◌≤ℤ◌ : ℤ → ℤ → Type 0
a ≤ℤ b = pos_part a + neg_part b ≤ pos_part b + neg_part a

abbrev pub ltb_ℤ : ℤ → ℤ → Bool
ltb_ℤ a b = ltb (pos_part a + neg_part b) (pos_part b + neg_part a)

pub +ℤ_parts :
    (a b : ℤ)
    → pos_part (a +ℤ b) + neg_part a + neg_part b ≡ neg_part (a +ℤ b) + pos_part a + pos_part b
unfolding ◌+ℤ◌
+ℤ_parts a b = ground arith

pub eq_of_parts : (a b : ℤ) → pos_part a + neg_part b ≡ pos_part b + neg_part a → a ≡ b
eq_of_parts a b h = ground arith

pub ruleset int_laws = (arith, +ℤ_parts, eq_of_parts)

pub +ℤ_assoc : (a b c : ℤ) → a +ℤ b +ℤ c ≡ a +ℤ (b +ℤ c)
+ℤ_assoc a b c = omega int_laws

-- `sum(f(x) for x in xs)`, from the left as Python adds.
module _ {ℓ} {A : Type ℓ} where
  abbrev pub sum_from : (A → ℤ) → ℤ → List A → ℤ
  sum_from f acc [] = acc
  sum_from f acc (x ∷ xs) = sum_from f (acc +ℤ f x) xs

  abbrev pub sum_ℤ : (A → ℤ) → List A → ℤ
  sum_ℤ f xs = sum_from f (pos 0) xs

  pub sum_from-add :
      (f : A → ℤ) (a b : ℤ) (xs : List A) → sum_from f (a +ℤ b) xs ≡ a +ℤ sum_from f b xs
  sum_from-add f a b [] = omega int_laws
  sum_from-add f a b (x ∷ xs) =
      ap (λ z. sum_from f z xs) (+ℤ_assoc a b (f x)) ∙ sum_from-add f a (b +ℤ f x) xs

  pub sum_from-append :
      (f : A → ℤ) (acc : ℤ) (xs ys : List A)
      → sum_from f acc (xs ++ ys) ≡ sum_from f (sum_from f acc xs) ys
  sum_from-append f acc [] ys = refl
  sum_from-append f acc (x ∷ xs) ys = sum_from-append f (acc +ℤ f x) xs ys
