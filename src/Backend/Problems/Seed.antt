-- ===== src/Backend/Problems/Seed.antt =====
-- backend/app/services/problem_service.py: `seed_default_problems_if_empty`, which the endpoints call
-- before they read.
pub mod Defaults
use secure_remote_code_execu.Prelude.{
  ℕ, ◌≡◌, refl, ap, Bool, false, Option, none, List, [], ◌∷◌, ◌++◌, ◌==◌, list_eq, nat_eq,
  if◌then◌else◌, arith,
}
use secure_remote_code_execu.Prelude.Texts.{Text, codes}
use secure_remote_code_execu.Backend.Query.{with_key, IsUniqueKey, IsUniqueKey-append}
use secure_remote_code_execu.Backend.Problems.{Problem, Catalog}
use secure_remote_code_execu.Backend.Problems.Unique.{slug_of, id_of, IsCatalog}
use secure_remote_code_execu.Backend.Problems.Seed.Defaults.{
  two_sum, two_sum_cases, palindrome, palindrome_cases, fib, fib_cases,
}

-- The identifiers of the new rows.
pub record SeedIds : Type 0 where
  pub two_sum_id : Text
  pub palindrome_id : Text
  pub fib_id : Text
  pub case_id : Text → ℕ → Text

abbrev pub seed_into : SeedIds → List Problem → Catalog → Catalog
seed_into i [] c = record {
  problems = two_sum i.two_sum_id ∷ palindrome i.palindrome_id ∷ fib i.fib_id ∷ [];
  test_cases =
      c.test_cases
      ++ two_sum_cases (i.case_id i.two_sum_id) i.two_sum_id
      ++ palindrome_cases (i.case_id i.palindrome_id) i.palindrome_id
      ++ fib_cases (i.case_id i.fib_id) i.fib_id;
}
seed_into i (p ∷ ps) c = c

-- `if count > 0: return`
unfoldable pub seed_default_problems_if_empty : SeedIds → Catalog → Catalog
seed_default_problems_if_empty i c = seed_into i c.problems c

abbrev pub IsDistinct : SeedIds → Type 0
IsDistinct i =
    ((i.two_sum_id == i.palindrome_id) ≡ false)
    × ((i.two_sum_id == i.fib_id) ≡ false)
    × ((i.palindrome_id == i.fib_id) ≡ false)

three-IsUniqueKey :
    (key : Problem → Text) (a b c : Problem)
    → (key a == key b) ≡ false
    → (key a == key c) ≡ false
    → (key b == key c) ≡ false
    → IsUniqueKey key (a ∷ b ∷ c ∷ [])
three-IsUniqueKey key a b c h k j =
    let one = IsUniqueKey-append key [] a (λ x. omega arith) refl in
    let two = IsUniqueKey-append key (a ∷ []) b one (simp (h) refl) in
    IsUniqueKey-append key (a ∷ b ∷ []) c two (simp (k, j) refl)

seeded-IsCatalog : (i : SeedIds) (c : Catalog) → IsDistinct i → IsCatalog (seed_into i [] c)
seeded-IsCatalog i c d = record {
  ids =
      three-IsUniqueKey id_of (two_sum i.two_sum_id) (palindrome i.palindrome_id) (fib i.fib_id) d.0
        d.1 d.2;
  slugs =
      three-IsUniqueKey slug_of (two_sum i.two_sum_id) (palindrome i.palindrome_id) (fib i.fib_id)
        refl refl refl;
}

seed_into-IsCatalog :
    (i : SeedIds) (ps : List Problem) (c : Catalog)
    → IsDistinct i
    → IsCatalog c
    → IsCatalog (seed_into i ps c)
seed_into-IsCatalog i [] c d h = seeded-IsCatalog i c d
seed_into-IsCatalog i (p ∷ ps) c d h = h

seed_into-seed_into :
    (i j : SeedIds) (ps : List Problem) (c : Catalog)
    → c.problems ≡ ps
    → seed_into j (seed_into i ps c).problems (seed_into i ps c) ≡ seed_into i ps c
seed_into-seed_into i j [] c e = refl
seed_into-seed_into i j (p ∷ ps) c e = ap (λ l. seed_into j l c) e

-- Seeding, with distinct new identifiers, keeps identifiers and slugs unique, and seeding again, with
-- whatever identifiers, changes nothing.
pub seed_default_problems_if_empty-once :
    (i j : SeedIds) (c : Catalog)
    → IsDistinct i
    → IsCatalog c
    → IsCatalog (seed_default_problems_if_empty i c)
      × (seed_default_problems_if_empty j (seed_default_problems_if_empty i c)
          ≡ seed_default_problems_if_empty i c)
unfolding seed_default_problems_if_empty
seed_default_problems_if_empty-once i j c d h =
    (seed_into-IsCatalog i c.problems c d h, seed_into-seed_into i j c.problems c refl)
