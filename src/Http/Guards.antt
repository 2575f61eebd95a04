-- ===== src/Http/Guards.antt =====
-- What a request passes before its handler, in the order of src/app.module.ts: the guard of tokens
-- (src/features/auth/guards/jwt-auth.guard.ts), the guard of roles, and the interceptor of content types
-- (src/shared/interceptors/jsonapi-content-type.interceptor.ts). Passport is an interface.
use text.Mathlib.Text.{starts_with}
use lior_paris_wallet.Prelude.{
  String, ◌≡◌, ◌⊎◌, Bool, false, not, ◌&&◌, ◌||◌, Option, none, some, List, str_eq, if◌then◌else◌,
}
use lior_paris_wallet.Prelude.Texts.{to_upper_case}
use lior_paris_wallet.Result.{
  Action, Result, Exception, ok, err, pure, lift, ◌>>=◌, unsupported_media_type,
}
use lior_paris_wallet.Entities.{Users, UserRole}
use lior_paris_wallet.Auth.{Site}
use lior_paris_wallet.Auth.RoleGuard.{RawRole, can_activate}

-- What the program reads of a request.
pub record HttpRequest : Type 0 where
  pub method : Option String
  pub content_type : Option String
  pub authorization : Option String

-- What `getAllAndOverride` finds of the metadata that the decorators `Public` and `Roles` put on the
-- handler and its class.
pub record Endpoint : Type 0 where
  pub public_metadata : Option Bool
  pub required_roles : Option (List String)

abbrev pub or_false : Option Bool → Bool
or_false none = false
or_false (some b) = b

unfoldable pub is_public : Endpoint → Bool
is_public endpoint = or_false endpoint.public_metadata

-- `AuthGuard('jwt').canActivate`: it lets in the user that `validate` returns for the email in the
-- token, when the token's signature and time are good, and leaves what `validate` leaves.
pub record Passport : Type 1 where
  pub email_of_token : Option String → Option String
  pub authenticate : (validate : String → Action Site Users) → HttpRequest → Action Site Users
  pub authenticate-ok :
      (validate : String → Action Site Users) (request : HttpRequest) (site site' : Site)
      (user : Users)
      → authenticate validate request site ≡ (ok user, site')
      → (email : String) × (email_of_token request.authorization ≡ some email)
        × (validate email site ≡ (ok user, site'))
  pub authenticate-err :
      (validate : String → Action Site Users) (request : HttpRequest) (site site' : Site)
      (x : Exception)
      → authenticate validate request site ≡ (err x, site')
      → (site' ≡ site)
        ⊎ ((email : String) × (y : Exception) × (validate email site ≡ (err y, site')))

-- `request.user?.role`
abbrev pub role_text : UserRole → String
role_text UserRole.admin = "ADMIN"
role_text UserRole.user = "USER"

abbrev pub raw_role : Option Users → RawRole
raw_role none = RawRole.other
raw_role (some user) = RawRole.one (role_text user.role)

-- `value || ''`
abbrev pub or_empty : Option String → String
or_empty none = ""
or_empty (some s) = s

abbrev pub json_api_type : String
json_api_type = "application/vnd.api+json"

abbrev pub has_body : String → Bool
has_body method = str_eq method "POST" || str_eq method "PATCH" || str_eq method "PUT"

-- The content type of the answer, if it is set; the call goes on, or throws.
unfoldable pub intercept : Endpoint → HttpRequest → Result (Option String)
intercept endpoint request =
    if not (is_public endpoint)
      && has_body (to_upper_case (or_empty request.method))
      && not (starts_with (or_empty request.content_type) json_api_type)
    then err (unsupported_media_type "Content-Type must be application/vnd.api+json")
    else ok (if is_public endpoint then none else some json_api_type)

-- The guard of roles and the interceptor, after the guard of tokens has set the user.
unfoldable pub pass_on : Endpoint → HttpRequest → Option Users → Action Site (Option Users)
pass_on endpoint request user = do
  allowed ← lift (can_activate endpoint.required_roles (raw_role user))
  header ← lift (intercept endpoint request)
  pure user

module _ (passport : Passport) (validate : String → Action Site Users) where
  -- The user of the request, if the guard has set one.
  unfoldable pub jwt_can_activate : Endpoint → HttpRequest → Action Site (Option Users)
  jwt_can_activate endpoint request =
      if is_public endpoint
      then pure none
      else (do user ← passport.authenticate validate request; pure (some user))

  -- The two guards and the interceptor, as the module provides them.
  unfoldable pub admit : Endpoint → HttpRequest → Action Site (Option Users)
  admit endpoint request = do
    user ← jwt_can_activate endpoint request
    pass_on endpoint request user
