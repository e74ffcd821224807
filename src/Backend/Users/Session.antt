-- ===== src/Backend/Users/Session.antt =====
-- From an account to a session: registering, logging in and using the token.
use secure_remote_code_execu.Prelude.{
  ℕ, ◌+◌, ◌*◌, ◌<◌, ◌≡◌, refl, ap, ◌∙◌, ◌⊎◌, true, false, Bool-cases, inl, inr, Option, some, List,
  [], ◌∷◌, ◌++◌, keep_if, All, ◌==◌, list_eq, nat_eq, eq_refl, eq_iff,
}
use secure_remote_code_execu.Prelude.Texts.{Text}
use secure_remote_code_execu.Database.{User}
use secure_remote_code_execu.Backend.Query.{
  scalar_one_or_none, with_key, keep_if-append, keep_if-none,
}
use secure_remote_code_execu.Backend.Users.{
  Bcrypt, Jwt, UserCreate, answered, new_user, verify_password, get_password_hash, password_bytes,
  is_true, create_access_token, named, if_verified, authenticate_user, token_for, login, user_found,
  user_of_uuid, user_of_claims, get_current_user,
}
use secure_remote_code_execu.Backend.Users.Accounts.{
  id_of, username_of, email_of, has_at, IsNamed, IsAccounts,
}

-- Texts of which only one has an `@` differ.
differ : (s t : Text) → has_at s ≡ false → has_at t ≡ true → (s == t) ≡ false
differ s t h k = elim (Bool-cases (s == t)) [
  | inl e ↦ absurd (cc (h, k, ap has_at ((eq_iff s t).0 e)))
  | inr n ↦ n
]

differ_sym : (s t : Text) → has_at s ≡ true → has_at t ≡ false → (s == t) ≡ false
differ_sym s t h k = elim (Bool-cases (s == t)) [
  | inl e ↦ absurd (cc (h, k, ap has_at ((eq_iff s t).0 e)))
  | inr n ↦ n
]

named-username :
    (name : Text) (users : List User)
    → All (λ u. IsNamed u.username u.email) users
    → has_at name ≡ false
    → with_key username_of name users ≡ []
    → keep_if (named name) users ≡ []
named-username name [] h k e = refl
named-username name (u ∷ users) h k e =
    let first = keep_if-none (λ x. x.username == name) u users e in
    let other : (u.email == name) ≡ false = differ_sym u.email name h.0.1 k in
    simp (first.0, other) (named-username name users h.1 k first.1)

named-email :
    (name : Text) (users : List User)
    → All (λ u. IsNamed u.username u.email) users
    → has_at name ≡ true
    → with_key email_of name users ≡ []
    → keep_if (named name) users ≡ []
named-email name [] h k e = refl
named-email name (u ∷ users) h k e =
    let first = keep_if-none (λ x. x.email == name) u users e in
    simp (differ u.username name h.0.0 k, first.0) (named-email name users h.1 k first.1)

module _ (b : Bcrypt) (id salt : Text) (user_in : UserCreate) (users : List User)
    (accounts : IsAccounts users) (names : IsNamed user_in.username user_in.email)
    (no_username : with_key username_of user_in.username users ≡ [])
    (no_email : with_key email_of user_in.email users ≡ []) where
  found_named :
      (name : Text)
      → (name ≡ user_in.username) ⊎ (name ≡ user_in.email)
      → keep_if (named name) (users ++ new_user b id salt user_in ∷ [])
        ≡ new_user b id salt user_in ∷ []
  found_named name (inl e) =
      keep_if-append (named name) users (new_user b id salt user_in ∷ [])
      ∙ simp
          (
            e,
            named-username user_in.username users accounts.names names.0 no_username,
            eq_refl user_in.username,
          )
          refl
  found_named name (inr e) =
      keep_if-append (named name) users (new_user b id salt user_in ∷ [])
      ∙ simp
          (
            e,
            named-email user_in.email users accounts.names names.1 no_email,
            differ user_in.username user_in.email names.0 names.1,
            eq_refl user_in.email,
          )
          refl

  verified : verify_password b user_in.password (get_password_hash b salt user_in.password) ≡ true
  unfolding verify_password get_password_hash
  verified = ap is_true (b.checkpw-hashpw (password_bytes user_in.password) salt)

  -- With accounts as registering keeps them, and a new one whose email and username were free: who
  -- logs in with either of the two and the password gets a token, and until it expires the token
  -- stands for that account.
  pub get_current_user-login :
      (j : Jwt) (parse_uuid : Text → Option Text) (minutes now later : ℕ) (name : Text)
      → (name ≡ user_in.username) ⊎ (name ≡ user_in.email)
      → with_key id_of id users ≡ []
      → parse_uuid id ≡ some id
      → later < now + minutes * 60
      → (token : Text) × (login b j minutes now name user_in.password
            (users ++ new_user b id salt user_in ∷ [])
          ≡ answered 200 token)
        × (get_current_user j parse_uuid later token (users ++ new_user b id salt user_in ∷ [])
            ≡ answered 200 (new_user b id salt user_in))
  unfolding login authenticate_user get_current_user create_access_token
  get_current_user-login j parse_uuid minutes now later name e fresh uuid early =
      let by_id : keep_if (λ u. u.id == id) (users ++ new_user b id salt user_in ∷ [])
          ≡ new_user b id salt user_in ∷ [] =
        keep_if-append (λ u. u.id == id) users (new_user b id salt user_in ∷ [])
        ∙ simp (fresh, eq_refl id) refl in
      (
        create_access_token j now id (minutes * 60),
        ap (λ l. token_for j now minutes (if_verified b user_in.password (scalar_one_or_none l)))
              (found_named name e)
            ∙ simp (verified) refl,
        ap (λ c. user_of_claims parse_uuid c (users ++ new_user b id salt user_in ∷ []))
              (j.jwt_decode-jwt_encode later _ early)
            ∙ ap (λ u. user_of_uuid u (users ++ new_user b id salt user_in ∷ [])) uuid
            ∙ ap (λ l. user_found (scalar_one_or_none l)) by_id,
      )
