-- ===== src/Backend/Users/Tests.antt =====
-- A few accounts with a plain hash and a plain token, and the theorems on accounts at them.
use secure_remote_code_execu.Prelude.{
  ◌≡◌, refl, inr, true, some, List, [], ◌∷◌, ◌++◌, list_eq, nat_eq, arith,
}
use secure_remote_code_execu.Prelude.Texts.{Text, codes}
use secure_remote_code_execu.Database.{User}
use secure_remote_code_execu.Backend.Users.{answered, new_user, register, login, get_current_user}
use secure_remote_code_execu.Backend.Users.Accounts.{IsAccounts, Registered, register-Registered}
use secure_remote_code_execu.Backend.Users.Session.{get_current_user-login}
use secure_remote_code_execu.Backend.Users.Samples.{plain, tokens, user_in}

abbrev grace : User
grace = record {
  id = codes "u1";
  username = codes "grace";
  email = codes "grace@lab";
  hashed_password = codes "compiler";
  role = codes "admin";
  is_active = true;
}

abbrev users : List User
users = grace ∷ []

users-IsAccounts : IsAccounts users
users-IsAccounts = record {
  ids = λ k. ground arith;
  usernames = λ k. ground arith;
  emails = λ k. ground arith;
  names = ((refl, refl), tt);
}

register-Registered_example :
    Registered plain (codes "u2") [] user_in users (register plain (codes "u2") [] user_in users)
register-Registered_example =
    register-Registered plain (codes "u2") [] user_in users users-IsAccounts refl (refl, refl)

abbrev enrolled : List User
enrolled = users ++ new_user plain (codes "u2") [] user_in ∷ []

get_current_user-login_example :
    (token : Text) × (login plain tokens 60 1000 (codes "ada@lab") (codes "difference") enrolled
      ≡ answered 200 token)
    × (get_current_user tokens some 2000 token enrolled
        ≡ answered 200 (new_user plain (codes "u2") [] user_in))
get_current_user-login_example =
    get_current_user-login plain (codes "u2") [] user_in users users-IsAccounts (refl, refl) refl
      refl tokens some 60 1000 2000 (codes "ada@lab") (inr refl) refl refl (omega arith)
