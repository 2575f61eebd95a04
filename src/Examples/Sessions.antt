-- ===== src/Examples/Sessions.antt =====
-- A login and a request with its token; what the configuration says.
use Prim.Native.Char.{Char}
use Prim.Native.String.{[], ◌∷◌, ◌++◌ as ◌&◌}
use text.Mathlib.TextLemmas.{cons-append, nil-append}
use lior_paris_wallet.Prelude.{
  ℕ, zero, suc, String, ◌≡◌, refl, ap, ◌∙◌, inl, inr, Option, none, some, Option-cases, arith,
  str_eq, if◌then◌else◌,
}
use lior_paris_wallet.Result.{Action, ok, throw, unauthorized}
use lior_paris_wallet.Orm.Memory.{memory}
use lior_paris_wallet.Entities.{Users}
use lior_paris_wallet.Config.{value_from, ConfigService}
use lior_paris_wallet.Bootstrap.{major_version}
use lior_paris_wallet.Users.Repository.{find_user_by_email}
use lior_paris_wallet.Users.Service.{UserResultDto, map_result}
use lior_paris_wallet.Auth.{Site, LoginDto, login, create_login_token}
use lior_paris_wallet.Http.Guards.{HttpRequest, Endpoint, Passport, is_public}
use lior_paris_wallet.Http.Tokens.{Jwt, IsPassportOf, strategy_secret}
use lior_paris_wallet.Http.Sessions.{IsNamed, signer, login-admit}
use lior_paris_wallet.Examples.Data.{ada}
use lior_paris_wallet.Examples.Requests.{plain_argon, site}

abbrev drop_chars : ℕ → String → String
drop_chars zero s = s
drop_chars (suc n) [] = []
drop_chars (suc n) (c ∷ s) = drop_chars n s

drop_char :
    (c : Char) (n : ℕ) (s t : String) → drop_chars (suc n) ((c ∷ s) & t) ≡ drop_chars n (s & t)
drop_char c n s t = ap (drop_chars (suc n)) (cons-append c s t)

drop_bearer : (token : String) → drop_chars 7 ("Bearer " & token) ≡ token
drop_bearer token =
    drop_char _ 6 "earer " token
    ∙ drop_char _ 5 "arer " token
    ∙ drop_char _ 4 "rer " token
    ∙ drop_char _ 3 "er " token
    ∙ drop_char _ 2 "r " token
    ∙ drop_char _ 1 " " token
    ∙ drop_char _ 0 "" token
    ∙ nil-append token

-- A token is the email, and lasts.
abbrev plain_jwt : Jwt
plain_jwt = record {
  sign = λ secret expires_in now user_id email. email;
  verify = λ secret now token. some token;
  IsFresh = λ expires_in issued now. Unit;
  verify-sign = λ secret expires_in issued now user_id email full fresh. refl;
}

abbrev email_in : Option String → Option String
email_in none = none
email_in (some header) = some (drop_chars 7 header)

abbrev checked : Option String → (String → Action Site Users) → Action Site Users
checked none check = throw (unauthorized "Unauthorized")
checked (some email) check = check email

abbrev bearer_passport : Passport
bearer_passport = record {
  email_of_token = email_in;
  authenticate = λ check request. checked (email_in request.authorization) check;
  authenticate-ok = λ check request site site' user h.
      elim (Option-cases (email_in request.authorization)) [
        | inl bare ↦ absurd (ground arith)
        | inr (email, found) ↦ (email, found, rw found at h)
      ];
  authenticate-err = λ check request site site' x h.
      elim (Option-cases (email_in request.authorization)) [
        | inl bare ↦ inl (ground arith)
        | inr (email, found) ↦ inr (email, x, rw found at h)
      ];
}

bearer_passport-IsPassportOf : IsPassportOf plain_jwt "s3cret" 9 bearer_passport
bearer_passport-IsPassportOf = record {
  bearer = λ token. ap (λ t. some t) (drop_bearer token);
  calls = λ check request email found. rw found refl;
}

-- Few variables are set.
abbrev config : ConfigService
config key =
    if str_eq key "JWT_SECRET"
    then some "s3cret"
    else if str_eq key "REDIS_PORT"
    then some "6380"
    else none

abbrev ada_login : LoginDto
ada_login = record { email = "ada@x.io"; password = "#1" }

abbrev ada_answer : UserResultDto
ada_answer = map_result ada none (some "ada@x.io")

ada_logs_in :
    login memory plain_argon (signer memory plain_argon plain_jwt config 5) 5 ada_login site
    ≡ (ok ada_answer, site)
unfolding login find_user_by_email create_login_token map_result
ada_logs_in = refl

abbrev closed_endpoint : Endpoint
closed_endpoint = record { public_metadata = none; required_roles = none }

abbrev ada_request : HttpRequest
ada_request = record {
  method = some "GET";
  content_type = none;
  authorization = some ("Bearer " & "ada@x.io");
}

login-admit_example :
    IsNamed memory plain_argon plain_jwt config 5 bearer_passport closed_endpoint ada_request site
      "ada@x.io"
unfolding is_public strategy_secret map_result
login-admit_example =
    login-admit memory plain_argon plain_jwt config 5 "s3cret" "ada@x.io" 9 bearer_passport
      ada_login site site site ada_answer closed_endpoint ada_request refl
      bearer_passport-IsPassportOf ada_logs_in refl tt refl refl

-- From the second major version on the webhook has another path than the parser of raw bodies.
moved_webhook : major_version "2.0.0" ≡ some 2
unfolding major_version value_from
moved_webhook = refl
