-- ===== src/Backend/Users/Samples.antt =====
-- A plain hash, a plain token and a new user.
use secure_remote_code_execu.Prelude.{
  ℕ, zero, suc, ◌<◌, ◌≡◌, refl, ap, true, Option, none, some, [], ◌∷◌, ◌++◌, length, take, drop,
  ltb, ◌==◌, list_eq, nat_eq, eq_refl, if◌then◌else◌, arith,
}
use secure_remote_code_execu.Prelude.Texts.{Text, codes}
use secure_remote_code_execu.Streaming.Samples.{take-append, drop-append}
use secure_remote_code_execu.Backend.Users.{Bcrypt, Claims, Jwt, UserCreate}

abbrev pub plain : Bcrypt
plain = record {
  hashpw = λ p salt. p;
  checkpw = λ p h. some (p == h);
  checkpw-hashpw = λ p salt. ap some (eq_refl p);
}

abbrev pub write : Claims → Text
write c =
    c.exp ∷ elim c.sub [ none ↦ 0 ∷ c.token_type | some s ↦ 1 ∷ length s ∷ (s ++ c.token_type) ]

abbrev pub claims : ℕ → ℕ → Text → Option Claims
claims exp zero t = some (record { exp = exp; sub = none; token_type = t })
claims exp (suc k) [] = none
claims exp (suc k) (n ∷ t) =
    some (record { exp = exp; sub = some (take n t); token_type = drop n t })

abbrev pub read : ℕ → Text → Option Claims
read now (exp ∷ (k ∷ t)) = if ltb now exp then claims exp k t else none
read now _ = none

pub read-write :
    (now exp : ℕ) (sub : Option Text) (t : Text)
    → now < exp
    → read now (write (record { exp = exp; sub = sub; token_type = t }))
      ≡ some (record { exp = exp; sub = sub; token_type = t })
read-write now exp none t h = let live : ltb now exp ≡ true = ground (arith, h) in simp (live) refl
read-write now exp (some s) t h =
    let live : ltb now exp ≡ true = ground (arith, h) in
    simp (live, take-append s t, drop-append s t) refl

abbrev pub tokens : Jwt
tokens = record {
  jwt_encode = write;
  jwt_decode = read;
  jwt_decode-jwt_encode = λ now c h. read-write now c.exp c.sub c.token_type h;
}

abbrev pub user_in : UserCreate
user_in = record {
  email = codes "ada@lab";
  username = codes "ada";
  password = codes "difference";
  role = codes "student";
}
