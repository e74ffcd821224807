-- ===== src/Backend/Query.antt =====
-- What the services ask of the database: `scalar_one_or_none`, `offset` and `limit`.
use secure_remote_code_execu.Prelude.{
  Bool, false, Bool-cases, inl, inr, keep_if, ℕ, ◌-◌, ◌*◌, ◌≡◌, refl, ap, sym, ◌∙◌, Option, none,
  some, length, length-append, ◌≤◌, ◌==◌, list_eq, nat_eq, eq_iff, List, [], ◌∷◌, ◌++◌, take, drop,
  Result, ok, err, arith,
}
use secure_remote_code_execu.Prelude.Texts.{Text, codes}

-- `result.scalar_one_or_none()`; more than one row raises `MultipleResultsFound`.
abbrev pub scalar_one_or_none : {A : Type 0} → List A → Result Text (Option A)
scalar_one_or_none [] = ok none
scalar_one_or_none (x ∷ []) = ok (some x)
scalar_one_or_none (x ∷ (y ∷ rest)) = err (codes "MultipleResultsFound")

-- `query.offset((page - 1) * page_size).limit(page_size)`, for a page of 1 or more
unfoldable pub paginate : {A : Type 0} → ℕ → ℕ → List A → List A
paginate page page_size rows = take page_size (drop ((page - 1) * page_size) rows)

pub keep_if-append :
    {A : Type 0} (p : A → Bool) (xs ys : List A)
    → keep_if p (xs ++ ys) ≡ keep_if p xs ++ keep_if p ys
keep_if-append p [] ys = refl
keep_if-append p (x ∷ xs) ys = elim (Bool-cases (p x)) [
  | inl t ↦ rw (t) (ap (λ l. x ∷ l) (keep_if-append p xs ys))
  | inr f ↦ rw (f) (keep_if-append p xs ys)
]

-- The rows with a key; a key is unique if there is one at most for each.
abbrev pub with_key : {A : Type 0} → (A → Text) → Text → List A → List A
with_key key k xs = keep_if (λ x. key x == k) xs

abbrev pub IsUniqueKey : {A : Type 0} → (A → Text) → List A → Type 0
IsUniqueKey {A} key xs = (k : Text) → length (with_key key k xs) ≤ 1

-- Adding a row whose key is new.
pub IsUniqueKey-append :
    {A : Type 0} (key : A → Text) (xs : List A) (x : A)
    → IsUniqueKey key xs
    → with_key key (key x) xs ≡ []
    → IsUniqueKey key (xs ++ x ∷ [])
IsUniqueKey-append key xs x h fresh k =
    let split =
      ap length (keep_if-append (λ y. key y == k) xs (x ∷ []))
      ∙ length-append (with_key key k xs) (with_key key k (x ∷ [])) in
    elim (Bool-cases (key x == k)) [
      | inl t ↦
          let last : length (with_key key k (x ∷ [])) ≡ 1 = simp (t) refl in
          let no : length (with_key key k xs) ≡ 0 =
            ap (λ j. length (with_key key j xs)) (sym ((eq_iff (key x) k).0 t)) ∙ ap length fresh in
          omega (arith, split, last, no)
      | inr f ↦
          let last : length (with_key key k (x ∷ [])) ≡ 0 = simp (f) refl in
          omega (arith, split, last, h k)
    ]

-- A query for a unique key does not raise.
pub scalar_one_or_none-IsOk :
    {A : Type 0} (xs : List A) → length xs ≤ 1 → (o : Option A) × (scalar_one_or_none xs ≡ ok o)
scalar_one_or_none-IsOk [] h = (none, refl)
scalar_one_or_none-IsOk (x ∷ []) h = (some x, refl)
scalar_one_or_none-IsOk (x ∷ (y ∷ rest)) h = absurd (omega (arith, h))

-- No row, or one.
pub data AtMostOne {A : Type 0} (xs : List A) : Type 0 where
  no_row : xs ≡ [] → AtMostOne xs
  one_row : (x : A) → xs ≡ x ∷ [] → AtMostOne xs

pub length-AtMostOne : {A : Type 0} (xs : List A) → length xs ≤ 1 → AtMostOne xs
length-AtMostOne [] h = no_row refl
length-AtMostOne (x ∷ []) h = one_row x refl
length-AtMostOne (x ∷ (y ∷ rest)) h = absurd (omega (arith, h))

pub keep_if-none :
    {A : Type 0} (p : A → Bool) (x : A) (xs : List A)
    → keep_if p (x ∷ xs) ≡ []
    → (p x ≡ false) × (keep_if p xs ≡ [])
keep_if-none p x xs h = elim (Bool-cases (p x)) [
  | inl t ↦
      let some_row : keep_if p (x ∷ xs) ≡ x ∷ keep_if p xs = simp (t) refl in
      absurd (cc (h, some_row))
  | inr f ↦ (f, simp (f) at h)
]
