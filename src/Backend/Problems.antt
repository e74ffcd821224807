-- ===== src/Backend/Problems.antt =====
-- backend/app/services/problem_service.py and models/problem.py: the problems and their test cases.
-- What the database decides is an argument: the order in which a relation is loaded and problems are
-- listed, and the identifiers of new rows. Time stamps are left out. `parse_uuid` is `uuid.UUID`, with
-- `none` where it raises, and `upper` is `str.upper`.
pub mod Unique
pub mod Grade
pub mod Seed
mod Tests
use secure_remote_code_execu.Prelude.{
  ℕ, suc, ◌+◌, Bool, true, false, not, ◌||◌, Option, none, some, List, [], ◌∷◌, ◌++◌, length, take,
  drop, map, keep_if, sum_of, ◌==◌, list_eq, nat_eq, if◌then◌else◌, Result, ok, err,
}
use secure_remote_code_execu.Prelude.Texts.{Text, codes, is_truthy}
use secure_remote_code_execu.Prelude.Int.{ℤ, pos, is_zero, sum_ℤ}
use secure_remote_code_execu.Backend.Query.{scalar_one_or_none}

-- A row of `problems`.
pub record Problem : Type 0 where
  pub id : Text
  pub title : Text
  pub slug : Text
  pub description : Text
  pub difficulty : Text
  pub time_limit_ms : ℕ
  pub memory_limit_mb : ℕ
  pub is_published : Bool

-- A row of `test_cases`.
pub record TestCase : Type 0 where
  pub id : Text
  pub problem_id : Text
  pub input_data : Text
  pub expected_output : Text
  pub is_hidden : Bool
  pub weight : ℤ
  pub order : ℤ
  pub explanation : Option Text

pub record Catalog : Type 0 where
  pub problems : List Problem
  pub test_cases : List TestCase

pub record TestCaseCreate : Type 0 where
  pub input_data : Text
  pub expected_output : Text
  pub is_hidden : Bool
  pub weight : ℤ
  pub order : ℤ
  pub explanation : Option Text

pub record ProblemCreate : Type 0 where
  pub title : Text
  pub slug : Text
  pub description : Text
  pub difficulty : Text
  pub time_limit_ms : ℕ
  pub memory_limit_mb : ℕ
  pub is_published : Bool
  pub test_cases : List TestCaseCreate

pub record TestCaseRead : Type 0 where
  pub id : Text
  pub is_hidden : Bool
  pub weight : ℤ
  pub order : ℤ
  pub explanation : Option Text
  pub input_data : Text
  pub expected_output : Text

pub record ProblemRead : Type 0 where
  pub problem : Problem
  pub test_case_count : ℕ
  pub sample_cases_count : ℕ

pub record ProblemDetailRead : Type 0 where
  pub problem : Problem
  pub sample_test_cases : List TestCaseRead
  pub total_test_cases : ℕ
  pub total_points : ℤ

-- What the database and the library decide.
pub record Loading : Type 0 where
  pub by_order : List TestCase → List TestCase
  pub oldest_first : List Problem → List Problem
  pub parse_uuid : Text → Option Text
  pub upper : Text → Text

-- `problem.test_cases`
abbrev pub cases_of : Loading → Catalog → Problem → List TestCase
cases_of l c p = l.by_order (keep_if (λ t. t.problem_id == p.id) c.test_cases)

abbrev pub is_sample : TestCase → Bool
is_sample t = not t.is_hidden

-- `if difficulty: query = query.where(...)`
abbrev pub with_difficulty : Loading → Option Text → List Problem → List Problem
with_difficulty l none ps = ps
with_difficulty l (some d) ps =
    if is_truthy d then keep_if (λ p. p.difficulty == l.upper d) ps else ps

abbrev pub problem_read : Loading → Catalog → Problem → ProblemRead
problem_read l c p = record {
  problem = p;
  test_case_count = length (cases_of l c p);
  sample_cases_count = length (keep_if is_sample (cases_of l c p));
}

unfoldable pub list_problems : Loading → Option Text → ℕ → ℕ → Catalog → List ProblemRead
list_problems l difficulty skip limit c = map (problem_read l c) (
    take limit (
      drop skip
        (l.oldest_first (with_difficulty l difficulty (keep_if (λ p. p.is_published) c.problems)))))

-- `Problem.id == val_uuid`, or `Problem.slug == identifier` where `uuid.UUID` raises
abbrev pub matching : Option Text → Text → List Problem → List Problem
matching (some id) identifier ps = keep_if (λ p. p.id == id) ps
matching none identifier ps = keep_if (λ p. p.slug == identifier) ps

unfoldable pub find_problem : Loading → Text → Catalog → Result Text (Option Problem)
find_problem l identifier c =
    scalar_one_or_none (matching (l.parse_uuid identifier) identifier c.problems)

abbrev pub test_case_read : TestCase → TestCaseRead
test_case_read t = record {
  id = t.id;
  is_hidden = t.is_hidden;
  weight = t.weight;
  order = t.order;
  explanation = t.explanation;
  input_data = t.input_data;
  expected_output = t.expected_output;
}

abbrev pub is_shown : Bool → TestCase → Bool
is_shown include_hidden t = not t.is_hidden || include_hidden

abbrev pub detail_of : Loading → Bool → Catalog → Problem → ProblemDetailRead
detail_of l include_hidden c p = record {
  problem = p;
  sample_test_cases = map test_case_read (keep_if (is_shown include_hidden) (cases_of l c p));
  total_test_cases = length (cases_of l c p);
  total_points = sum_ℤ (λ t. t.weight) (cases_of l c p);
}

abbrev pub detail_found :
    Loading → Bool → Catalog → Result Text (Option Problem) → Result Text (Option ProblemDetailRead)
detail_found l include_hidden c (err e) = err e
detail_found l include_hidden c (ok none) = ok none
detail_found l include_hidden c (ok (some p)) = ok (some (detail_of l include_hidden c p))

unfoldable pub get_problem_by_id_or_slug :
    Loading → Text → Bool → Catalog → Result Text (Option ProblemDetailRead)
get_problem_by_id_or_slug l identifier include_hidden c =
    detail_found l include_hidden c (find_problem l identifier c)

abbrev pub problem_of : Text → ProblemCreate → Problem
problem_of id prob_in = record {
  id = id;
  title = prob_in.title;
  slug = prob_in.slug;
  description = prob_in.description;
  difficulty = prob_in.difficulty;
  time_limit_ms = prob_in.time_limit_ms;
  memory_limit_mb = prob_in.memory_limit_mb;
  is_published = prob_in.is_published;
}

-- `tc_in.order or (idx + 1)`
abbrev pub order_or : ℤ → ℕ → ℤ
order_or order idx = if is_zero order then pos (idx + 1) else order

abbrev pub test_case_of : (ℕ → Text) → Text → ℕ → TestCaseCreate → TestCase
test_case_of case_id problem_id idx tc_in = record {
  id = case_id idx;
  problem_id = problem_id;
  input_data = tc_in.input_data;
  expected_output = tc_in.expected_output;
  is_hidden = tc_in.is_hidden;
  weight = tc_in.weight;
  order = order_or tc_in.order idx;
  explanation = tc_in.explanation;
}

-- `for idx, tc_in in enumerate(...)`, from an index on
abbrev pub new_cases : (ℕ → Text) → Text → ℕ → List TestCaseCreate → List TestCase
new_cases case_id problem_id idx [] = []
new_cases case_id problem_id idx (tc_in ∷ rest) =
    test_case_of case_id problem_id idx tc_in ∷ new_cases case_id problem_id (suc idx) rest

abbrev pub has_slug : Text → List Problem → Bool
has_slug slug [] = false
has_slug slug (p ∷ ps) = (p.slug == slug) || has_slug slug ps

abbrev pub with_problem : Text → (ℕ → Text) → ProblemCreate → Catalog → Catalog
with_problem id case_id prob_in c = record {
  problems = c.problems ++ problem_of id prob_in ∷ [];
  test_cases = c.test_cases ++ new_cases case_id id 0 prob_in.test_cases;
}

-- The column `slug` is unique: a second row raises when it is flushed.
unfoldable pub create_problem :
    Text → (ℕ → Text) → ProblemCreate → Catalog → Result Text (Problem × Catalog)
create_problem id case_id prob_in c =
    if has_slug prob_in.slug c.problems
    then err (codes "IntegrityError")
    else ok (problem_of id prob_in, with_problem id case_id prob_in c)
