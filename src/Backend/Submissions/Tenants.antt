-- ===== src/Backend/Submissions/Tenants.antt =====
-- What a user who is not an administrator gets of the submissions of others.
use secure_remote_code_execu.Prelude.{
  ℕ, ◌≡◌, refl, ap, sym, ◌∙◌, Bool, false, Bool-cases, inl, inr, List, [], ◌∷◌, length, keep_if,
  ◌==◌, list_eq, nat_eq, eq_refl, ◌++◌, ok, some, none,
}
use secure_remote_code_execu.Prelude.Texts.{Text}
use secure_remote_code_execu.Database.{User, Submission}
use secure_remote_code_execu.Backend.Query.{scalar_one_or_none, paginate, keep_if-append}
use secure_remote_code_execu.Backend.Submissions.{
  Task, Settings, SubmissionCreate, Store, pending, create_submission, is_admin, visible,
  get_submission, list_submissions,
}

-- The rows of a user.
abbrev pub own : {Float : Type 0} → User → List (Submission Float) → List (Submission Float)
own u rows = keep_if (λ s. s.user_id == u.id) rows

keep_if-swap :
    {A : Type 0} (p q : A → Bool) (xs : List A)
    → keep_if p (keep_if q xs) ≡ keep_if p (keep_if q (keep_if p xs))
keep_if-swap p q [] = refl
keep_if-swap p q (x ∷ xs) = elim (Bool-cases (p x)) [
  | inl t ↦ elim (Bool-cases (q x)) [
    | inl s ↦ rw (t) (rw (s) (rw (t) (ap (λ l. x ∷ l) (keep_if-swap p q xs))))
    | inr f ↦ rw (t) (rw (f) (keep_if-swap p q xs))
  ]
  | inr n ↦ elim (Bool-cases (q x)) [
    | inl s ↦ rw (s) (rw (n) (keep_if-swap p q xs))
    | inr f ↦ rw (n) (rw (f) (keep_if-swap p q xs))
  ]
]

-- What a user who is not an administrator gets for an identifier depends on the user's own rows only:
-- the answer, the error included, is the same for any two tables with the same rows of that user.
pub get_submission-own :
    {Float : Type 0} (id : Text) (u : User) (rows others : List (Submission Float))
    → is_admin u ≡ false
    → own u rows ≡ own u others
    → get_submission id u rows ≡ get_submission id u others
unfolding get_submission visible
get_submission-own id u rows others h e = rw (h) (
    ap scalar_one_or_none (
      keep_if-swap (λ s. s.user_id == u.id) (λ s. s.id == id) rows
      ∙ ap (λ l. keep_if (λ s. s.user_id == u.id) (keep_if (λ s. s.id == id) l)) e
      ∙ sym (keep_if-swap (λ s. s.user_id == u.id) (λ s. s.id == id) others)))

-- A page of submissions and their total, for a user who is not an administrator, depend on the user's
-- own rows only.
pub list_submissions-own :
    {Float : Type 0} (newest_first : List (Submission Float) → List (Submission Float)) (u : User)
    (page page_size : ℕ) (rows others : List (Submission Float))
    → is_admin u ≡ false
    → own u rows ≡ own u others
    → list_submissions newest_first u page page_size rows
      ≡ list_submissions newest_first u page page_size others
unfolding list_submissions visible
list_submissions-own newest_first u page page_size rows others h e =
    rw (h) (ap (λ l. (paginate page page_size (newest_first l), length l)) e)

-- With a new identifier, for two users who are no administrators: after a submission has been
-- created, its owner gets it as PENDING, and another user gets nothing.
pub get_submission-create_submission :
    {Float : Type 0} (dumps : Task → Text) (settings : Settings) (headers : Text) (has_redis : Bool)
    (id : Text) (sub_in : SubmissionCreate) (owner other : User) (s : Store Float)
    → keep_if (λ r. r.id == id) s.submissions ≡ []
    → is_admin owner ≡ false
    → is_admin other ≡ false
    → (owner.id == other.id) ≡ false
    → (get_submission id owner
          (create_submission dumps settings headers has_redis id owner.id sub_in s).1.submissions
        ≡ ok (some (pending id owner.id sub_in)))
      × (get_submission id other
            (create_submission dumps settings headers has_redis id owner.id sub_in s).1.submissions
          ≡ ok none)
unfolding get_submission visible create_submission
get_submission-create_submission {Float} dumps settings headers has_redis id sub_in owner other s
      fresh h k differ =
    let row : Submission Float = pending id owner.id sub_in in
    let found : keep_if (λ r. r.id == id) (s.submissions ++ row ∷ []) ≡ row ∷ [] =
      keep_if-append (λ r. r.id == id) s.submissions (row ∷ [])
      ∙ rw (fresh) (rw (eq_refl id) refl) in
    (
      ap (λ l. scalar_one_or_none (visible owner l)) found ∙ rw (h) (rw (eq_refl owner.id) refl),
      ap (λ l. scalar_one_or_none (visible other l)) found ∙ rw (k) (rw (differ) refl),
    )
