-- ===== src/Backend/Limits/Tests.antt =====
-- Sorted sets as lists, and the theorems of the rate limiter at a few requests.
use secure_remote_code_execu.Prelude.{
  ℕ, ◌≤◌, ◌≡◌, refl, ap, ◌∙◌, Bool-cases, inl, inr, true, false, not, none, some, List, [], ◌∷◌,
  length, keep_if, ◌==◌, list_eq, nat_eq, eq_refl, if◌then◌else◌, arith,
}
use secure_remote_code_execu.Prelude.Texts.{Text, codes}
use secure_remote_code_execu.Prelude.Int.{pos, ltb_ℤ}
use secure_remote_code_execu.Backend.Limits.{
  Entry, SortedSets, has_member, SortedSetsLaws, RateLimiter, Request,
}
use secure_remote_code_execu.Backend.Limits.Live.{within}
use secure_remote_code_execu.Backend.Limits.Window.{serve, serve-within}
use secure_remote_code_execu.Backend.Limits.Race.{count_all, decide_all, decide_all-count_all}

abbrev Store : Type 0
Store = Text → List Entry

abbrev set_to : Text → List Entry → Store → Store
set_to k es s j = if j == k then es else s j

abbrev sets : SortedSets
sets = record {
  Db = Store;
  zremrangebyscore = λ k hi s. set_to k (keep_if (λ e. ltb_ℤ hi (pos e.score)) (s k)) s;
  zcard = λ k s. length (s k);
  zadd = λ k e s. set_to k (e ∷ keep_if (λ x. not (x.member == e.member)) (s k)) s;
  expire = λ k ttl s. s;
  entries = λ k s. s k;
}

set_to-same : (k : Text) (es : List Entry) (s : Store) → set_to k es s k ≡ es
set_to-same k es s = rw (eq_refl k) refl

others-all :
    (m : Text) (es : List Entry)
    → has_member m es ≡ false
    → keep_if (λ x. not (x.member == m)) es ≡ es
others-all m [] h = refl
others-all m (e ∷ es) h = elim (Bool-cases (e.member == m)) [
  | inl t ↦ let yes : has_member m (e ∷ es) ≡ true = simp (t) refl in absurd (cc (h, yes))
  | inr f ↦ simp (f) (ap (λ l. e ∷ l) (others-all m es (simp (f) at h)))
]

sets-SortedSetsLaws : SortedSetsLaws sets
sets-SortedSetsLaws = record {
  entries-zremrangebyscore = λ k hi s. set_to-same k _ s;
  zcard-entries = λ k s. refl;
  entries-zadd = λ k e s h.
      ap (λ l. set_to k (e ∷ l) s k) (others-all e.member (s k) h) ∙ set_to-same k (e ∷ s k) s;
  entries-expire = λ k j ttl s. refl;
}

abbrev limiter : RateLimiter
limiter = record { max_requests = 2; window_seconds = 60; scope = codes "submissions" }

abbrev request : Request
request = record { host = some (codes "10.0.0.1"); user_id = none }

abbrev nothing : Store
nothing k = []

abbrev at : Text → ℕ → Entry
at m t = record { member = m; score = t }

abbrev calls : List Entry
calls = at (codes "a") 10 ∷ at (codes "b") 20 ∷ at (codes "c") 30 ∷ at (codes "d") 75 ∷ []

serve-within_example : within 60 75 (serve sets limiter request calls ([], nothing)).0 ≤ 2
serve-within_example =
    serve-within sets limiter request sets-SortedSetsLaws calls nothing 75 refl
      (omega arith, (omega arith, (omega arith, (omega arith, tt))))
      (refl, (refl, (refl, (refl, tt))))

abbrev burst : List Entry
burst = at (codes "a") 10 ∷ at (codes "b") 10 ∷ at (codes "c") 10 ∷ []

decide_all-count_all_example :
    (decide_all sets limiter
      (codes "k")
      (count_all sets limiter (codes "k") burst nothing).0
      (count_all sets limiter (codes "k") burst nothing).1).0
    ≡ 3
decide_all-count_all_example =
    decide_all-count_all sets limiter (codes "k") sets-SortedSetsLaws 10 burst nothing (omega arith)
      (refl, (refl, (refl, tt)))
