-- ===== src/Backend/Problems/Seed/Defaults.antt =====
-- backend/app/services/problem_service.py: the problems of `seed_default_problems_if_empty`.
use secure_remote_code_execu.Prelude.{ℕ, Bool, true, false, Option, none, some, List, [], ◌∷◌}
use secure_remote_code_execu.Prelude.Texts.{Text, codes}
use secure_remote_code_execu.Prelude.Int.{ℤ, pos}
use secure_remote_code_execu.Backend.Problems.{Problem, TestCase}

abbrev seed_case : Text → Text → Text → Text → Bool → ℤ → ℤ → Option Text → TestCase
seed_case id problem_id input_data expected_output is_hidden weight order explanation = record {
  id = id;
  problem_id = problem_id;
  input_data = input_data;
  expected_output = expected_output;
  is_hidden = is_hidden;
  weight = weight;
  order = order;
  explanation = explanation;
}

abbrev pub two_sum : Text → Problem
two_sum id = record {
  id = id;
  title = codes "Two Sum Problem";
  slug = codes "two-sum";
  description =
      codes
        "### Problem Statement\nGiven an array of integers `nums` and an integer `target`, return indices of the two numbers such that they add up to `target`.\n\n### Input Format\n- Line 1: Space-separated integers representing `nums`\n- Line 2: An integer `target`\n\n### Output Format\n- Print the two 0-indexed indices separated by a space in ascending order.\n\n### Example\n**Input:**\n```\n2 7 11 15\n9\n```\n**Output:**\n```\n0 1\n```\n";
  difficulty = codes "EASY";
  time_limit_ms = 2000;
  memory_limit_mb = 128;
  is_published = true;
}

abbrev pub two_sum_cases : (ℕ → Text) → Text → List TestCase
two_sum_cases case_id problem_id =
    seed_case (case_id 0) problem_id (codes "2 7 11 15\n9") (codes "0 1") false (pos 25) (pos 1)
      (some (codes "nums[0] + nums[1] = 2 + 7 = 9"))
    ∷ seed_case (case_id 1) problem_id (codes "3 2 4\n6") (codes "1 2") false (pos 25) (pos 2)
        (some (codes "nums[1] + nums[2] = 2 + 4 = 6"))
    ∷ seed_case (case_id 2) problem_id (codes "3 3\n6") (codes "0 1") true (pos 25) (pos 3) none
    ∷ seed_case (case_id 3) problem_id (codes "-1 -2 -3 -4 -5\n-8") (codes "2 4") true (pos 25)
        (pos 4) none
    ∷ []

abbrev pub palindrome : Text → Problem
palindrome id = record {
  id = id;
  title = codes "Valid Palindrome";
  slug = codes "valid-palindrome";
  description =
      codes
        "### Problem Statement\nGiven a string `s`, determine if it is a palindrome, considering only alphanumeric characters and ignoring cases.\n\n### Input Format\n- Line 1: A string `s`\n\n### Output Format\n- Print `true` if `s` is a palindrome, or `false` otherwise.\n\n### Example\n**Input:**\n```\nracecar\n```\n**Output:**\n```\ntrue\n```\n";
  difficulty = codes "EASY";
  time_limit_ms = 2000;
  memory_limit_mb = 128;
  is_published = true;
}

abbrev pub palindrome_cases : (ℕ → Text) → Text → List TestCase
palindrome_cases case_id problem_id =
    seed_case (case_id 0) problem_id (codes "racecar") (codes "true") false (pos 30) (pos 1) none
    ∷ seed_case (case_id 1) problem_id (codes "hello") (codes "false") false (pos 30) (pos 2) none
    ∷ seed_case (case_id 2) problem_id (codes "A man a plan a canal Panama") (codes "true") true
        (pos 40) (pos 3) none
    ∷ []

abbrev pub fib : Text → Problem
fib id = record {
  id = id;
  title = codes "Nth Fibonacci Number";
  slug = codes "nth-fibonacci";
  description =
      codes
        "### Problem Statement\nCompute the `n`-th Fibonacci number $F(n)$ modulo $10^9 + 7$, where $F(0) = 0$ and $F(1) = 1$.\n\n### Input Format\n- Line 1: An integer `n` ($0 \\le n \\le 10^5$)\n\n### Output Format\n- Print the single integer $F(n) \\pmod{10^9 + 7}$.\n";
  difficulty = codes "MEDIUM";
  time_limit_ms = 2000;
  memory_limit_mb = 128;
  is_published = true;
}

abbrev pub fib_cases : (ℕ → Text) → Text → List TestCase
fib_cases case_id problem_id =
    seed_case (case_id 0) problem_id (codes "2") (codes "1") false (pos 20) (pos 1) none
    ∷ seed_case (case_id 1) problem_id (codes "10") (codes "55") false (pos 30) (pos 2) none
    ∷ seed_case (case_id 2) problem_id (codes "50") (codes "586268941") true (pos 50) (pos 3) none
    ∷ []
