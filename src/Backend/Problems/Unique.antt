-- ===== src/Backend/Problems/Unique.antt =====
-- Problems by identifier and slug, and what is shown of a problem.
use mathlib.Core.Path.{subst}
use secure_remote_code_execu.Prelude.{
  ℕ, suc, ◌+◌, ◌≡◌, refl, ap, sym, ◌∙◌, Bool, true, false, not, ◌&&◌, if◌then◌else◌, Bool-cases,
  inl, inr, Option, none, some, List, [], ◌∷◌, ◌++◌, map, keep_if, All, arith, ◌==◌, list_eq,
  nat_eq, eq_refl, Result, ok, err,
}
use secure_remote_code_execu.Prelude.Texts.{Text, codes}
use secure_remote_code_execu.Prelude.Int.{pos, is_zero}
use mathlib.Core.List.{Permᴰ}
use mathlib.Core.List.Permᴰ
use secure_remote_code_execu.Backend.Query.{
  scalar_one_or_none, keep_if-append, with_key, IsUniqueKey, IsUniqueKey-append,
  scalar_one_or_none-IsOk,
}
use secure_remote_code_execu.Backend.Problems.{
  Problem, TestCase, Catalog, ProblemCreate, TestCaseCreate, TestCaseRead, ProblemDetailRead,
  Loading, cases_of, matching, find_problem, test_case_read, is_shown, detail_of, detail_found,
  get_problem_by_id_or_slug, problem_of, test_case_of, new_cases, has_slug, with_problem,
  create_problem,
}

abbrev pub slug_of : Problem → Text
slug_of p = p.slug

abbrev pub id_of : Problem → Text
id_of p = p.id

-- One problem at most for each identifier, and for each slug.
pub record IsCatalog (c : Catalog) : Type 0 where
  pub ids : IsUniqueKey id_of c.problems
  pub slugs : IsUniqueKey slug_of c.problems

has_slug-false :
    (slug : Text) (ps : List Problem) → has_slug slug ps ≡ false → with_key slug_of slug ps ≡ []
has_slug-false slug [] h = refl
has_slug-false slug (p ∷ ps) h = elim (Bool-cases (p.slug == slug)) [
  | inl e ↦ absurd (cc (h, e))
  | inr n ↦ simp (n) (has_slug-false slug ps (simp (n) at h))
]

-- What creating a problem gives: an error, with nothing added, or a catalog that is still one.
pub data Created (c : Catalog) (prob_in : ProblemCreate) (r : Result Text (Problem × Catalog))
    : Type 0 where
  taken :
      has_slug prob_in.slug c.problems ≡ true
      → r ≡ err (codes "IntegrityError")
      → Created c prob_in r
  created :
      (p : Problem) (c' : Catalog)
      → r ≡ ok (p, c')
      → c'.problems ≡ c.problems ++ p ∷ []
      → IsCatalog c'
      → Created c prob_in r

matching-IsOk :
    (uuid : Option Text) (identifier : Text) (c : Catalog)
    → IsCatalog c
    → (o : Option Problem) × (scalar_one_or_none (matching uuid identifier c.problems) ≡ ok o)
matching-IsOk none identifier c h =
    scalar_one_or_none-IsOk (with_key slug_of identifier c.problems) (h.slugs identifier)
matching-IsOk (some id) identifier c h =
    scalar_one_or_none-IsOk (with_key id_of id c.problems) (h.ids id)

-- In a catalog, asking for a problem by whatever identifier never raises.
pub find_problem-IsOk :
    (l : Loading) (identifier : Text) (c : Catalog)
    → IsCatalog c
    → (o : Option Problem) × (find_problem l identifier c ≡ ok o)
unfolding find_problem
find_problem-IsOk l identifier c h = matching-IsOk (l.parse_uuid identifier) identifier c h

-- Creating a problem with a new identifier keeps identifiers and slugs unique; if the slug is taken
-- it is refused.
pub create_problem-Created :
    (id : Text) (case_id : ℕ → Text) (prob_in : ProblemCreate) (c : Catalog)
    → IsCatalog c
    → with_key id_of id c.problems ≡ []
    → Created c prob_in (create_problem id case_id prob_in c)
unfolding create_problem
create_problem-Created id case_id prob_in c h fresh =
    elim (Bool-cases (has_slug prob_in.slug c.problems)) [
      | inl t ↦ taken t (rw (t) refl)
      | inr n ↦
          created (problem_of id prob_in) (with_problem id case_id prob_in c) (rw (n) refl) refl
            (record {
              ids = IsUniqueKey-append id_of c.problems (problem_of id prob_in) h.ids fresh;
              slugs =
                  IsUniqueKey-append slug_of c.problems (problem_of id prob_in) h.slugs
                    (has_slug-false prob_in.slug c.problems n);
            })
    ]

all_new :
    (case_id : ℕ → Text) (id : Text) (idx : ℕ) (new : List TestCaseCreate)
    → keep_if (λ t. t.problem_id == id) (new_cases case_id id idx new)
      ≡ new_cases case_id id idx new
all_new case_id id idx [] = refl
all_new case_id id idx (t ∷ new) =
    simp (eq_refl id)
      (ap (λ l. test_case_of case_id id idx t ∷ l) (all_new case_id id (suc idx) new))

cases_keep :
    (ts : List TestCase) (case_id : ℕ → Text) (id : Text) (idx : ℕ) (new : List TestCaseCreate)
    → keep_if (λ t. t.problem_id == id) ts ≡ []
    → keep_if (λ t. t.problem_id == id) (ts ++ new_cases case_id id idx new)
      ≡ new_cases case_id id idx new
cases_keep ts case_id id idx new h =
    keep_if-append (λ t. t.problem_id == id) ts (new_cases case_id id idx new)
    ∙ ap (λ l. l ++ keep_if (λ t. t.problem_id == id) (new_cases case_id id idx new)) h
    ∙ all_new case_id id idx new

-- The row of a problem holds what was given.
pub record IsAsGiven (prob_in : ProblemCreate) (p : Problem) : Type 0 where
  pub title : p.title ≡ prob_in.title
  pub slug : p.slug ≡ prob_in.slug
  pub description : p.description ≡ prob_in.description
  pub difficulty : p.difficulty ≡ prob_in.difficulty
  pub time_limit_ms : p.time_limit_ms ≡ prob_in.time_limit_ms
  pub memory_limit_mb : p.memory_limit_mb ≡ prob_in.memory_limit_mb
  pub is_published : p.is_published ≡ prob_in.is_published

-- What is shown of a test case that was given at an index: its own texts, and its order, or the
-- position if the order is 0.
pub given_case : (ℕ → Text) → ℕ → TestCaseCreate → TestCaseRead
given_case case_id idx tc_in = record {
  id = case_id idx;
  is_hidden = tc_in.is_hidden;
  weight = tc_in.weight;
  order = if is_zero tc_in.order then pos (1 + idx) else tc_in.order;
  explanation = tc_in.explanation;
  input_data = tc_in.input_data;
  expected_output = tc_in.expected_output;
}

-- The given test cases, from an index on; a hidden one only if it is asked for.
pub given_cases : Bool → (ℕ → Text) → ℕ → List TestCaseCreate → List TestCaseRead
unfolding given_case
given_cases include_hidden case_id idx [] = []
given_cases include_hidden case_id idx (tc_in ∷ rest) =
    let later = given_cases include_hidden case_id (1 + idx) rest in
    if tc_in.is_hidden && not include_hidden then later else given_case case_id idx tc_in ∷ later

given_cases-new_cases :
    (include_hidden : Bool) (case_id : ℕ → Text) (id : Text) (idx : ℕ) (new : List TestCaseCreate)
    → map test_case_read (keep_if (is_shown include_hidden) (new_cases case_id id idx new))
      ≡ given_cases include_hidden case_id idx new
unfolding given_cases given_case
given_cases-new_cases include_hidden case_id id idx [] = refl
given_cases-new_cases include_hidden case_id id idx (t ∷ new) =
    ground (arith, given_cases-new_cases include_hidden case_id id (suc idx) new)

module _ {A B : Type 0} where
  map-Permᴰ : (f : A → B) {xs ys : List A} → Permᴰ xs ys → Permᴰ (map f xs) (map f ys)
  map-Permᴰ f Permᴰ.nil = Permᴰ.nil
  map-Permᴰ f (Permᴰ.cons e h) = Permᴰ.cons (ap f e) (map-Permᴰ f h)
  map-Permᴰ f (Permᴰ.swap d e) = Permᴰ.swap (ap f d) (ap f e)
  map-Permᴰ f (Permᴰ.trans h k) = Permᴰ.trans (map-Permᴰ f h) (map-Permᴰ f k)

module _ {A : Type 0} (p : A → Bool) where
  keep_cons :
      (x y : A) (xs ys : List A)
      → x ≡ y
      → Permᴰ (keep_if p xs) (keep_if p ys)
      → Permᴰ (keep_if p (x ∷ xs)) (keep_if p (y ∷ ys))
  keep_cons x y xs ys e h = elim (Bool-cases (p x)) [
    | inl t ↦ simp (t, ap p (sym e) ∙ t) (Permᴰ.cons e h)
    | inr f ↦ simp (f, ap p (sym e) ∙ f) h
  ]

  keep_two : (x y : A) (zs : List A) → Permᴰ (keep_if p (x ∷ y ∷ zs)) (keep_if p (y ∷ x ∷ zs))
  keep_two x y zs = elim (Bool-cases (p x)) [
    | inl t ↦ elim (Bool-cases (p y)) [
      | inl u ↦ simp (t, u) (Permᴰ.swap refl refl)
      | inr n ↦ simp (t, n) (Permᴰ.refl _)
    ]
    | inr f ↦ elim (Bool-cases (p y)) [
      | inl u ↦ simp (f, u) (Permᴰ.refl _)
      | inr n ↦ simp (f, n) (Permᴰ.refl _)
    ]
  ]

  keep_if-Permᴰ : {xs ys : List A} → Permᴰ xs ys → Permᴰ (keep_if p xs) (keep_if p ys)
  keep_if-Permᴰ Permᴰ.nil = Permᴰ.nil
  keep_if-Permᴰ (Permᴰ.cons {a = x} {b = y} {l₁ = xs} {l₂ = ys} e h) =
      keep_cons x y xs ys e (keep_if-Permᴰ h)
  keep_if-Permᴰ (Permᴰ.swap {a = x} {b = y} {a' = u} {b' = v} {l = zs} d e) =
      subst (λ z. Permᴰ (keep_if p (x ∷ y ∷ zs)) (keep_if p (z ∷ v ∷ zs))) e
        (subst (λ z. Permᴰ (keep_if p (x ∷ y ∷ zs)) (keep_if p (y ∷ z ∷ zs))) d (keep_two x y zs))
  keep_if-Permᴰ (Permᴰ.trans h k) = Permᴰ.trans (keep_if-Permᴰ h) (keep_if-Permᴰ k)

-- With a new identifier and a new slug that is no UUID, for a database that loads each test case of a
-- problem once, in any order: after a problem has been created, who asks for its slug gets it as it was
-- given, with the test cases that were given, each once, in whatever order: with their own input,
-- expected output, weight and explanation, an order of 0 replaced by the position, and without the
-- hidden ones unless they are asked for.
pub get_problem_by_id_or_slug-create_problem :
    (l : Loading) (id : Text) (case_id : ℕ → Text) (prob_in : ProblemCreate) (c : Catalog)
    (include_hidden : Bool)
    → ((ts : List TestCase) → Permᴰ (l.by_order ts) ts)
    → has_slug prob_in.slug c.problems ≡ false
    → keep_if (λ t. t.problem_id == id) c.test_cases ≡ []
    → l.parse_uuid prob_in.slug ≡ none
    → (p : Problem) × (c' : Catalog) × (d : ProblemDetailRead) × (create_problem id case_id prob_in
          c
        ≡ ok (p, c'))
      × (get_problem_by_id_or_slug l prob_in.slug include_hidden c' ≡ ok (some d))
      × IsAsGiven prob_in d.problem
      × Permᴰ d.sample_test_cases (given_cases include_hidden case_id 0 prob_in.test_cases)
unfolding create_problem get_problem_by_id_or_slug find_problem
get_problem_by_id_or_slug-create_problem l id case_id prob_in c include_hidden each free unused
      no_uuid =
    let c' = with_problem id case_id prob_in c in
    let same : keep_if (λ t. t.problem_id == id) c'.test_cases
        ≡ new_cases case_id id 0 prob_in.test_cases =
      cases_keep c.test_cases case_id id 0 prob_in.test_cases unused in
    let found : matching none prob_in.slug c'.problems ≡ problem_of id prob_in ∷ [] =
      keep_if-append (λ p. p.slug == prob_in.slug) c.problems (problem_of id prob_in ∷ [])
      ∙ simp (has_slug-false prob_in.slug c.problems free, eq_refl prob_in.slug) refl in
    (
      problem_of id prob_in,
      c',
      detail_of l include_hidden c' (problem_of id prob_in),
      rw (free) refl,
      ap
            (λ u.
              detail_found l include_hidden c'
                (scalar_one_or_none (matching u prob_in.slug c'.problems)))
            no_uuid
          ∙ ap (λ ps. detail_found l include_hidden c' (scalar_one_or_none ps)) found,
      record {
        title = refl;
        slug = refl;
        description = refl;
        difficulty = refl;
        time_limit_ms = refl;
        memory_limit_mb = refl;
        is_published = refl;
      },
      subst
          (λ ts.
            Permᴰ (map test_case_read (keep_if (is_shown include_hidden) (l.by_order ts)))
              (given_cases include_hidden case_id 0 prob_in.test_cases))
          (sym same)
          (subst
            (λ ts.
              Permᴰ
                (map test_case_read (
                  keep_if (is_shown include_hidden)
                    (l.by_order (new_cases case_id id 0 prob_in.test_cases))))
                ts)
            (given_cases-new_cases include_hidden case_id id 0 prob_in.test_cases)
            (map-Permᴰ test_case_read (
              keep_if-Permᴰ (is_shown include_hidden)
                (each (new_cases case_id id 0 prob_in.test_cases))))),
    )

shown-All :
    (ts : List TestCase)
    → All (λ t. t.is_hidden ≡ false) (map test_case_read (keep_if (is_shown false) ts))
shown-All [] = tt
shown-All (t ∷ ts) = elim (Bool-cases t.is_hidden) [
  | inl h ↦ simp (h) (shown-All ts)
  | inr n ↦ simp (n) (refl, shown-All ts)
]

detail_found-shown :
    (l : Loading) (c : Catalog) (r : Result Text (Option Problem)) (d : ProblemDetailRead)
    → detail_found l false c r ≡ ok (some d)
    → All (λ t. t.is_hidden ≡ false) d.sample_test_cases
detail_found-shown l c (err e) d h = absurd (cc h)
detail_found-shown l c (ok none) d h = absurd (cc h)
detail_found-shown l c (ok (some p)) d h =
    let e : detail_of l false c p ≡ d = cc h in
    subst (λ x. All (λ t. t.is_hidden ≡ false) x.sample_test_cases) e (shown-All (cases_of l c p))

-- Without the hidden cases, whatever is asked for: no case that is shown is hidden.
pub get_problem_by_id_or_slug-shown :
    (l : Loading) (identifier : Text) (c : Catalog) (d : ProblemDetailRead)
    → get_problem_by_id_or_slug l identifier false c ≡ ok (some d)
    → All (λ t. t.is_hidden ≡ false) d.sample_test_cases
unfolding get_problem_by_id_or_slug
get_problem_by_id_or_slug-shown l identifier c d h =
    detail_found-shown l c (find_problem l identifier c) d h
