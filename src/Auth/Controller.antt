-- ===== src/Auth/Controller.antt =====
-- src/features/auth/auth.controller.ts.
use lior_paris_wallet.Prelude.{ℕ, String, none}
use lior_paris_wallet.Result.{Action, pure, ◌>>=◌}
use lior_paris_wallet.Orm.{Orm}
use lior_paris_wallet.Http.JsonApi.{JsonApiDocument, json_api_data, json_api_meta}
use lior_paris_wallet.Users.Controller.{UserDocument, user_resource}
use lior_paris_wallet.Auth.{
  Argon, Site, RegisterIds, RegisterDto, LoginDto, ChangePasswordDto, register, login,
  change_password,
}

module _ (orm : Orm) (argon : Argon) (sign : ℕ → ℕ → String → String) where
  unfoldable pub post_register : RegisterIds → RegisterDto → Action Site UserDocument
  post_register ids input = do
    user ← register orm argon sign ids input
    pure (json_api_data (user_resource user none user.access_token) none none)

  unfoldable pub post_login : (now : ℕ) → LoginDto → Action Site UserDocument
  post_login now input = do
    user ← login orm argon sign now input
    pure (json_api_data (user_resource user none user.access_token) none none)

  -- The answer's `meta` is the message.
  unfoldable pub post_password :
      (user_id : ℕ)
      → ChangePasswordDto
      → (salt now : ℕ) → Action Site (JsonApiDocument Unit String Unit)
  post_password user_id input salt now = do
    message ← change_password orm argon sign user_id input salt now
    pure (json_api_meta message)
