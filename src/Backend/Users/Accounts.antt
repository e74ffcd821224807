-- ===== src/Backend/Users/Accounts.antt =====
-- What registering does to the accounts.
use mathlib.Core.Path.{subst}
use secure_remote_code_execu.Prelude.{
  ◌≡◌, refl, ap, sym, ◌∙◌, Bool, true, false, ◌||◌, Bool-cases, inl, inr, List, [], ◌∷◌, ◌++◌,
  keep_if, any, All, All-append, ◌==◌, list_eq, nat_eq, arith,
}
use secure_remote_code_execu.Prelude.Texts.{Text}
use secure_remote_code_execu.Database.{User}
use secure_remote_code_execu.Backend.Query.{
  scalar_one_or_none, with_key, IsUniqueKey, IsUniqueKey-append, AtMostOne, no_row, one_row,
  length-AtMostOne, keep_if-none,
}
use secure_remote_code_execu.Backend.Users.{
  Bcrypt, UserCreate, Response, answered, refused, new_user, create_user, register_username,
  register_email, register,
}

abbrev pub id_of : User → Text
id_of u = u.id

abbrev pub username_of : User → Text
username_of u = u.username

abbrev pub email_of : User → Text
email_of u = u.email

abbrev pub has_at : Text → Bool
has_at t = any (λ c. c == b'@') t

-- An email has an `@`, and a username has none: what the schema `UserBase` lets through.
abbrev pub IsNamed : Text → Text → Type 0
IsNamed username email = (has_at username ≡ false) × (has_at email ≡ true)

-- The rows of `users`: the three columns are unique, and names are not mistaken for emails.
pub record IsAccounts (users : List User) : Type 0 where
  pub ids : IsUniqueKey id_of users
  pub usernames : IsUniqueKey username_of users
  pub emails : IsUniqueKey email_of users
  pub names : All (λ u. IsNamed u.username u.email) users

any-free :
    (username email : Text) (users : List User)
    → with_key username_of username users ≡ []
    → with_key email_of email users ≡ []
    → any (λ u. (u.username == username) || (u.email == email)) users ≡ false
any-free username email [] h k = refl
any-free username email (u ∷ users) h k =
    let a = keep_if-none (λ x. x.username == username) u users h in
    let b = keep_if-none (λ x. x.email == email) u users k in
    simp (a.0, b.0) (any-free username email users a.1 b.1)

-- What registering gives: 400 with nothing changed, if the email or the username has an account; and
-- else 201 with a new active account, which has the role that was asked for.
pub data Registered (b : Bcrypt) (id salt : Text) (user_in : UserCreate) (users : List User)
    (r : Response User × List User) : Type 0 where
  taken :
      (any (λ u. (u.username == user_in.username) || (u.email == user_in.email)) users ≡ true)
      → r ≡ (refused 400, users)
      → Registered b id salt user_in users r
  registered :
      with_key username_of user_in.username users ≡ []
      → with_key email_of user_in.email users ≡ []
      → r ≡ (answered 201 (new_user b id salt user_in), users ++ new_user b id salt user_in ∷ [])
      → IsAccounts (users ++ new_user b id salt user_in ∷ [])
      → Registered b id salt user_in users r

any-found :
    (p q : User → Bool) (u : User) (users : List User)
    → keep_if p users ≡ u ∷ []
    → (any (λ x. q x || p x) users ≡ true) × (any (λ x. p x || q x) users ≡ true)
any-found p q u [] h = absurd (cc h)
any-found p q u (v ∷ users) h = elim (Bool-cases (p v)) [
  | inl t ↦ (ground (arith, t), ground (arith, t))
  | inr f ↦
      let rest = any-found p q u users (simp (f) at h) in
      (ground (arith, rest.0), ground (arith, rest.1))
]

module _ (b : Bcrypt) (id salt : Text) (user_in : UserCreate) (users : List User)
    (accounts : IsAccounts users) (fresh : with_key id_of id users ≡ [])
    (named_well : IsNamed user_in.username user_in.email) where
  IsAccounts-append :
      with_key username_of user_in.username users ≡ []
      → with_key email_of user_in.email users ≡ []
      → IsAccounts (users ++ new_user b id salt user_in ∷ [])
  IsAccounts-append h k = record {
    ids = IsUniqueKey-append id_of users (new_user b id salt user_in) accounts.ids fresh;
    usernames =
        IsUniqueKey-append username_of users (new_user b id salt user_in) accounts.usernames h;
    emails = IsUniqueKey-append email_of users (new_user b id salt user_in) accounts.emails k;
    names =
        All-append (λ u. IsNamed u.username u.email) users (new_user b id salt user_in ∷ [])
          accounts.names (named_well, tt);
  }

  register_username-Registered :
      with_key email_of user_in.email users ≡ []
      → AtMostOne (with_key username_of user_in.username users)
      → Registered b id salt user_in users (
          register_username b id salt user_in users
            (scalar_one_or_none (with_key username_of user_in.username users)))
  unfolding create_user
  register_username-Registered k (no_row h) =
      registered h k
        (ap (λ l. register_username b id salt user_in users (scalar_one_or_none l)) h
          ∙ simp (any-free user_in.username user_in.email users h k) refl)
        (IsAccounts-append h k)
  register_username-Registered k (one_row u h) =
      taken
        (any-found (λ x. x.username == user_in.username) (λ x. x.email == user_in.email) u users
          h).1
        (ap (λ l. register_username b id salt user_in users (scalar_one_or_none l)) h)

  register_email-Registered :
      AtMostOne (with_key email_of user_in.email users)
      → Registered b id salt user_in users (
          register_email b id salt user_in users
            (scalar_one_or_none (with_key email_of user_in.email users)))
  register_email-Registered (no_row k) =
      subst
        (λ l.
          Registered b id salt user_in users
            (register_email b id salt user_in users (scalar_one_or_none l)))
        (sym k)
        (register_username-Registered k (
          length-AtMostOne (with_key username_of user_in.username users)
            (accounts.usernames user_in.username)))
  register_email-Registered (one_row u k) =
      taken
        (any-found (λ x. x.email == user_in.email) (λ x. x.username == user_in.username) u users
          k).0
        (ap (λ l. register_email b id salt user_in users (scalar_one_or_none l)) k)

  -- With a new identifier and names as the schema wants them, on unique accounts: registering never
  -- raises; it answers 400 and changes nothing if the email or the username is taken, and else 201,
  -- with one new account, after which identifiers, usernames and emails are still unique.
  pub register-Registered : Registered b id salt user_in users (register b id salt user_in users)
  unfolding register
  register-Registered =
      register_email-Registered
        (length-AtMostOne (with_key email_of user_in.email users) (accounts.emails user_in.email))
