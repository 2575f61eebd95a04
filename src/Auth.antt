-- ===== src/Auth.antt =====
-- src/features/auth: the service, the strategy that checks a token's user, and the guard of roles.
-- Logging is left out; a salt, a new row's uuid and the time are arguments. argon2 and the signing of
-- tokens, which the repository does not contain, are interfaces.
pub mod Registration
pub mod Passwords
pub mod RoleGuard
pub mod Controller
use lior_paris_wallet.Prelude.{
  ℕ, String, Bool, true, false, not, Option, none, some, List, [], ◌∷◌, ◌++◌, ◌≡◌, is_some,
  if◌then◌else◌,
}
use lior_paris_wallet.Prelude.Rows.{any}
use lior_paris_wallet.Result.{
  Action, pure, modify, or_throw, throw_if, ◌>>=◌, ◌>>◌, conflict, unauthorized, forbidden, Result,
  ok, err,
}
use lior_paris_wallet.Orm.{Orm}
use lior_paris_wallet.Entities.{Db, Users, UserRole}
use lior_paris_wallet.Users.Repository.{find_user_by_email, create_user}
use lior_paris_wallet.Users.Service.{UserResultDto, map_result, find_by_id, update_user_password}

-- `argon.hash` draws a salt; `argon.verify` accepts the password that was hashed.
pub record Argon : Type 0 where
  pub hash : (salt : ℕ) → String → String
  pub verify : (hashed password : String) → Bool
  pub verify-hash : (salt : ℕ) (password : String) → verify (hash salt password) password ≡ true

-- dto/register.input.ts
pub record RegisterDto : Type 0 where
  pub name : String
  pub email : String
  pub password : String

-- dto/login.input.ts
pub record LoginDto : Type 0 where
  pub email : String
  pub password : String

-- dto/change-password.input.ts
pub record ChangePasswordDto : Type 0 where
  pub old_password : String
  pub new_password : String

-- The object that `UserRegistered` is emitted with.
pub record UserRegistered : Type 0 where
  pub user_id : ℕ
  pub email : String
  pub name : String

-- The tables, and the events emitted so far.
pub record Site : Type 0 where
  pub db : Db
  pub emitted : List UserRegistered

-- What the runtime supplies to a registration; its token is signed after the row has been saved.
pub record RegisterIds : Type 0 where
  pub user_id : ℕ
  pub salt : ℕ
  pub now : ℕ
  pub signed_at : ℕ

abbrev pub on_tables : {A : Type 0} → Action Db A → Action Site A
on_tables m site = let (r, db') = m site.db in (r, record site { db = db' })

abbrev pub emit : UserRegistered → Action Site Unit
emit event = modify λ site. record site { emitted = site.emitted ++ event ∷ [] }

abbrev pub invalid_credentials : String
invalid_credentials = "Invalid credentials provided"

abbrev pub new_user : Argon → RegisterIds → RegisterDto → Users
new_user argon ids input = record {
  id = ids.user_id;
  name = input.name;
  email = input.email;
  password = argon.hash ids.salt input.password;
  role = UserRole.user;
  created_at = ids.now;
  updated_at = ids.now;
}

-- `sign` is `jwtService.sign({ userId, email })` at a time: it writes the time and the end of the token's
-- lifetime into the token.
module _ (orm : Orm) (argon : Argon) (sign : (now user_id : ℕ) → (email : String) → String) where
  unfoldable pub create_login_token : (now user_id : ℕ) → (email : String) → String
  create_login_token now user_id email = sign now user_id email

  unfoldable pub check_duplicate_email : String → Action Site Unit
  check_duplicate_email email = do
    existing_user ← on_tables (find_user_by_email orm email)
    throw_if (is_some existing_user) (conflict "Email already in use.")

  unfoldable pub register : RegisterIds → RegisterDto → Action Site UserResultDto
  register ids input = do
    check_duplicate_email input.email
    saved_user ← on_tables (create_user orm (new_user argon ids input))
    emit (record { user_id = saved_user.id; email = saved_user.email; name = saved_user.name })
    pure (
        map_result saved_user none
          (some (create_login_token ids.signed_at saved_user.id saved_user.email)))

  unfoldable pub login : (now : ℕ) → LoginDto → Action Site UserResultDto
  login now input = do
    found ← on_tables (find_user_by_email orm input.email)
    user ← or_throw found (unauthorized invalid_credentials)
    throw_if (not (argon.verify user.password input.password)) (unauthorized invalid_credentials)
    pure (map_result user none (some (create_login_token now user.id user.email)))

  unfoldable pub change_password :
      (user_id : ℕ) → ChangePasswordDto → (salt now : ℕ) → Action Site String
  change_password user_id input salt now = do
    user ← on_tables (find_by_id orm user_id)
    throw_if (not (argon.verify user.password input.old_password))
        (unauthorized invalid_credentials)
    on_tables (update_user_password orm user_id (argon.hash salt input.new_password) now)
    pure "Password updated successfully"

  -- `validate` of the strategy: the user that a token's payload names.
  unfoldable pub validate : (email : String) → Action Site Users
  validate email = do
    found ← on_tables (find_user_by_email orm email)
    or_throw found (unauthorized "Unauthorized")
