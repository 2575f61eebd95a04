-- ===== src/Http/Tokens.antt =====
-- Tokens between a login and the requests after it: their secret and their time (src/features/auth/auth.module.ts,
-- src/features/auth/strategies/jwt.strategy.ts). `JwtService` of @nestjs/jwt and passport-jwt are interfaces.
use Prim.Native.String.{◌++◌ as ◌&◌}
use lior_paris_wallet.Prelude.{ℕ, String, ◌≡◌, ◌≢◌, Option, none, some, str_eq, if◌then◌else◌}
use lior_paris_wallet.Result.{Result, Action, ok, err, type_error}
use lior_paris_wallet.Entities.{Users}
use lior_paris_wallet.Config.{ConfigService, or_default}
use lior_paris_wallet.Auth.{Site}
use lior_paris_wallet.Http.Guards.{HttpRequest, Passport}

-- A token is signed with a secret and a lifetime at a time; one of the same secret whose lifetime is not
-- over gives back its payload. A secret of no characters signs nothing.
pub record Jwt : Type 1 where
  pub sign : (secret expires_in : String) → (now user_id : ℕ) → (email : String) → String
  pub verify : (secret : String) → (now : ℕ) → (token : String) → Option String
  pub IsFresh : (expires_in : String) → (issued now : ℕ) → Type 0
  pub verify-sign :
      (secret expires_in : String) (issued now user_id : ℕ) (email : String)
      → secret ≢ ""
      → IsFresh expires_in issued now
      → verify secret now (sign secret expires_in issued user_id email) ≡ some email

-- `useFactory` of the module that signs
unfoldable pub module_secret : ConfigService → String
module_secret config = or_default (config "JWT_SECRET") "dev-secret"

unfoldable pub module_expires_in : ConfigService → String
module_expires_in config = or_default (config "JWT_EXPIRES_IN") "24h"

-- The constructor of the strategy: that of passport-jwt throws without a secret.
unfoldable pub strategy_secret : ConfigService → Result String
strategy_secret config = elim (config "JWT_SECRET") [
  | none ↦ err type_error
  | some secret ↦ if str_eq secret "" then err type_error else ok secret
]

-- Passport at a time, with the strategy of the secret: it takes the token from the header, and calls
-- `validate` for a token that is good.
pub record IsPassportOf (jwt : Jwt) (secret : String) (now : ℕ) (passport : Passport) : Type 1 where
  pub bearer :
      (token : String)
      → passport.email_of_token (some ("Bearer " & token)) ≡ jwt.verify secret now token
  pub calls :
      (validate : String → Action Site Users) (request : HttpRequest) (email : String)
      → passport.email_of_token request.authorization ≡ some email
      → passport.authenticate validate request ≡ validate email
