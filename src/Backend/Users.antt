-- ===== src/Backend/Users.antt =====
-- backend/app/services/user_service.py, core/security.py, api/deps.py and endpoints/auth.py: accounts,
-- passwords, tokens and the guards of the API. bcrypt and the token library are arguments, and so are
-- the clock, in seconds, and the identifiers and salts of new rows. Texts of errors are left out.
pub mod Accounts
pub mod Session
pub mod Samples
mod Tests
use secure_remote_code_execu.Prelude.{
  ℕ, ◌+◌, ◌*◌, ◌<◌, ◌≡◌, Bool, true, false, not, ◌||◌, Option, none, some, List, [], ◌∷◌, ◌++◌,
  take, keep_if, any, ◌==◌, list_eq, nat_eq, if◌then◌else◌, Result, ok, err,
}
use secure_remote_code_execu.Prelude.Texts.{Text, codes}
use secure_remote_code_execu.Utf8.{encode}
use secure_remote_code_execu.Database.{User}
use secure_remote_code_execu.Backend.Query.{scalar_one_or_none}
use secure_remote_code_execu.Backend.Submissions.{is_admin}

-- `bcrypt.hashpw` of bytes with a salt, and `bcrypt.checkpw`, with `none` where it raises.
pub record Bcrypt : Type 0 where
  pub hashpw : List ℕ → Text → Text
  pub checkpw : List ℕ → Text → Option Bool
  pub checkpw-hashpw :
      (password : List ℕ) (salt : Text) → checkpw password (hashpw password salt) ≡ some true

pub record Claims : Type 0 where
  pub exp : ℕ
  pub sub : Option Text
  pub token_type : Text

-- `jwt.encode` and `jwt.decode` with the settings' key and algorithm; decoding gives `none` where it
-- raises `JWTError`, and gives what was encoded before it expires.
pub record Jwt : Type 0 where
  pub jwt_encode : Claims → Text
  pub jwt_decode : ℕ → Text → Option Claims
  pub jwt_decode-jwt_encode :
      (now : ℕ) (c : Claims) → now < c.exp → jwt_decode now (jwt_encode c) ≡ some c

-- `UserCreate`
pub record UserCreate : Type 0 where
  pub email : Text
  pub username : Text
  pub password : Text
  pub role : Text

-- The answer to a request: a status code, with a value or without.
pub data Response (A : Type 0) : Type 0 where
  answered : ℕ → A → Response A
  refused : ℕ → Response A

abbrev pub password_bytes : Text → List ℕ
password_bytes password = take 72 (encode password)

abbrev pub is_true : Option Bool → Bool
is_true none = false
is_true (some b) = b

unfoldable pub verify_password : Bcrypt → Text → Text → Bool
verify_password b plain_password hashed_password =
    is_true (b.checkpw (password_bytes plain_password) hashed_password)

unfoldable pub get_password_hash : Bcrypt → Text → Text → Text
get_password_hash b salt password = b.hashpw (password_bytes password) salt

-- `create_access_token` with a duration that is not zero
unfoldable pub create_access_token : Jwt → ℕ → Text → ℕ → Text
create_access_token j now subject expires_delta =
    j.jwt_encode
      (record { exp = now + expires_delta; sub = some subject; token_type = codes "access" })

abbrev pub decode_token : Jwt → ℕ → Text → Option Claims
decode_token j now token = j.jwt_decode now token

abbrev pub get_user_by_email : Text → List User → Result Text (Option User)
get_user_by_email email users = scalar_one_or_none (keep_if (λ u. u.email == email) users)

abbrev pub get_user_by_username : Text → List User → Result Text (Option User)
get_user_by_username username users =
    scalar_one_or_none (keep_if (λ u. u.username == username) users)

abbrev pub new_user : Bcrypt → Text → Text → UserCreate → User
new_user b id salt user_in = record {
  id = id;
  username = user_in.username;
  email = user_in.email;
  hashed_password = get_password_hash b salt user_in.password;
  role = user_in.role;
  is_active = true;
}

-- Both columns are unique: a second row raises when it is committed.
unfoldable pub create_user :
    Bcrypt → Text → Text → UserCreate → List User → Result Text (User × List User)
create_user b id salt user_in users =
    if any (λ u. (u.username == user_in.username) || (u.email == user_in.email)) users
    then err (codes "IntegrityError")
    else ok (new_user b id salt user_in, users ++ new_user b id salt user_in ∷ [])

-- `or_(User.username == username_or_email, User.email == username_or_email)`
abbrev pub named : Text → User → Bool
named name u = (u.username == name) || (u.email == name)

abbrev pub if_verified : Bcrypt → Text → Result Text (Option User) → Result Text (Option User)
if_verified b password (err e) = err e
if_verified b password (ok none) = ok none
if_verified b password (ok (some u)) =
    if verify_password b password u.hashed_password then ok (some u) else ok none

unfoldable pub authenticate_user : Bcrypt → Text → Text → List User → Result Text (Option User)
authenticate_user b username_or_email password users =
    if_verified b password (scalar_one_or_none (keep_if (named username_or_email) users))

-- An exception that is not an `HTTPException` is answered with 500.
abbrev pub created_user : List User → Result Text (User × List User) → Response User × List User
created_user users (err e) = (refused 500, users)
created_user users (ok (u, rows)) = (answered 201 u, rows)

abbrev pub register_username :
    Bcrypt
    → Text
    → Text
    → UserCreate
    → List User
    → Result Text (Option User)
    → Response User × List User
register_username b id salt user_in users (err e) = (refused 500, users)
register_username b id salt user_in users (ok (some u)) = (refused 400, users)
register_username b id salt user_in users (ok none) =
    created_user users (create_user b id salt user_in users)

abbrev pub register_email :
    Bcrypt
    → Text
    → Text
    → UserCreate
    → List User
    → Result Text (Option User)
    → Response User × List User
register_email b id salt user_in users (err e) = (refused 500, users)
register_email b id salt user_in users (ok (some u)) = (refused 400, users)
register_email b id salt user_in users (ok none) =
    register_username b id salt user_in users (get_user_by_username user_in.username users)

-- The endpoint `register`, for a payload that its schema lets through.
unfoldable pub register : Bcrypt → Text → Text → UserCreate → List User → Response User × List User
register b id salt user_in users =
    register_email b id salt user_in users (get_user_by_email user_in.email users)

abbrev pub token_for : Jwt → ℕ → ℕ → Result Text (Option User) → Response Text
token_for j now minutes (err e) = refused 500
token_for j now minutes (ok none) = refused 401
token_for j now minutes (ok (some u)) =
    if not u.is_active
    then refused 400
    else answered 200 (create_access_token j now u.id (minutes * 60))

-- The endpoints `login` and `login_json`, which do the same; `minutes` is
-- `ACCESS_TOKEN_EXPIRE_MINUTES`.
unfoldable pub login : Bcrypt → Jwt → ℕ → ℕ → Text → Text → List User → Response Text
login b j minutes now username_or_email password users =
    token_for j now minutes (authenticate_user b username_or_email password users)

abbrev pub user_found : Result Text (Option User) → Response User
user_found (err e) = refused 500
user_found (ok none) = refused 401
user_found (ok (some u)) = if not u.is_active then refused 400 else answered 200 u

abbrev pub user_of_uuid : Option Text → List User → Response User
user_of_uuid none users = refused 401
user_of_uuid (some id) users = user_found (scalar_one_or_none (keep_if (λ u. u.id == id) users))

abbrev pub user_of_sub : (Text → Option Text) → Option Text → List User → Response User
user_of_sub parse_uuid none users = refused 401
user_of_sub parse_uuid (some sub) users = user_of_uuid (parse_uuid sub) users

abbrev pub user_of_claims : (Text → Option Text) → Option Claims → List User → Response User
user_of_claims parse_uuid none users = refused 401
user_of_claims parse_uuid (some claims) users = user_of_sub parse_uuid claims.sub users

-- `get_current_user`, and `get_current_active_user`, which adds nothing.
unfoldable pub get_current_user : Jwt → (Text → Option Text) → ℕ → Text → List User → Response User
get_current_user j parse_uuid now token users =
    user_of_claims parse_uuid (decode_token j now token) users

abbrev pub get_current_admin_user : Response User → Response User
get_current_admin_user (refused code) = refused code
get_current_admin_user (answered code u) = if is_admin u then answered code u else refused 403
