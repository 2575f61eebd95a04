-- ===== src/Examples/Http.antt =====
-- Requests on their way to a handler, and what is answered when something is thrown.
use Prim.Native.String.{String}
use lior_paris_wallet.Prelude.{◌≡◌, ◌⊎◌, inr, refl, true, Option, some, none, [], ◌∷◌}
use lior_paris_wallet.Prelude.Texts.{to_upper_case, to_lower_case, trim}
use lior_paris_wallet.Result.{ok}
use lior_paris_wallet.Orm.Memory.{memory}
use lior_paris_wallet.Entities.{Users}
use lior_paris_wallet.Users.Repository.{find_user_by_email}
use lior_paris_wallet.Auth.{Site, validate}
use lior_paris_wallet.Auth.RoleGuard.{can_activate, normalize_user_roles}
use lior_paris_wallet.Wallet.Tag.{
  collapse, strip_start, strip_end, take_characters, slug, generate_wallet_tag,
}
use lior_paris_wallet.Http.Json.{Json, object, member, no_members, text}
use lior_paris_wallet.Http.Errors.{
  Issue, HttpException, body, one, http, catch, errors_from_http_response, errors_from_messages,
  normalize_messages,
}
use lior_paris_wallet.Http.Pipes.{
  Paramtype, body_param, Parsed, failure, Nest, checked, transform_zod, transform_json_api,
  value_to_parse,
}
use lior_paris_wallet.Http.Envelope.{transform_zod-transform_json_api}
use lior_paris_wallet.Http.Guards.{
  HttpRequest, Endpoint, Passport, is_public, admit, jwt_can_activate, pass_on, intercept,
}
use lior_paris_wallet.Http.Admission.{IsAdmitted, admit-IsAdmitted}
use lior_paris_wallet.Http.Logging.{resolve_log_levels}
use lior_paris_wallet.Examples.Data.{bob, db}
use lior_paris_wallet.Examples.Requests.{plain_argon, signing}

abbrev pub nest : Nest
nest = record {
  bad_request_text = λ message. record {
    status = 400;
    name = "BadRequestException";
    response = body (one message) (some "Bad Request") [];
  };
  bad_request_text_lem = λ message. refl;
  bad_request =
      λ response. record { status = 400; name = "BadRequestException"; response = response };
  bad_request_lem = λ response. refl;
}

-- `{ "data": { "attributes": { "email": "x" } } }`
abbrev envelope : Json
envelope = object (
    member "data"
      (object (member "attributes" (object (member "email" (text "x") no_members)) no_members))
      no_members)

abbrev email_issue : Issue
email_issue = record {
  path = some ("email" ∷ []);
  message = "Invalid email";
  code = some "invalid_string";
  keys = none;
}

abbrev no_email : Json → Parsed
no_email value = failure (email_issue ∷ [])

abbrev schema : Paramtype → Option (Json → Parsed)
schema type = some no_email

unwrapped : value_to_parse envelope body_param ≡ object (member "email" (text "x") no_members)
unfolding value_to_parse
unwrapped = refl

transform_zod-transform_json_api_example :
    transform_zod nest schema envelope body_param
    ≡ transform_json_api (λ v t. checked nest (no_email v)) envelope body_param
transform_zod-transform_json_api_example =
    transform_zod-transform_json_api nest schema no_email envelope body_param refl

abbrev refusal : HttpException
refusal = record {
  status = 400;
  name = "BadRequestException";
  response = body (one "Insufficient balance") (some "Bad Request") [];
}

-- The first word of a message is named as a field.
refusal_pointer :
    (catch (http refusal)).errors
    ≡ record {
      status = 400;
      title = "BadRequestException";
      detail = some "Insufficient balance";
      code = some "VALIDATION_ERROR";
      pointer = some "/data/attributes/Insufficient";
    }
      ∷ []
unfolding catch errors_from_http_response errors_from_messages normalize_messages
refusal_pointer = refl

abbrev pub passport_of : String → Passport
passport_of email = record {
  email_of_token = λ authorization. some email;
  authenticate = λ check request. check email;
  authenticate-ok = λ check request site site' user h. (email, refl, h);
  authenticate-err = λ check request site site' x h. inr (email, x, h);
}

abbrev passport : Passport
passport = passport_of "bob@x.io"

abbrev all_users_endpoint : Endpoint
all_users_endpoint = record { public_metadata = none; required_roles = some ("ADMIN" ∷ []) }

abbrev get_request : HttpRequest
get_request = record { method = some "GET"; content_type = none; authorization = some "Bearer t" }

abbrev site : Site
site = record { db = db; emitted = [] }

bob_is_admitted :
    admit passport (validate memory plain_argon signing) all_users_endpoint get_request site
    ≡ (ok (some bob), site)
unfolding admit jwt_can_activate pass_on intercept is_public validate find_user_by_email
    can_activate normalize_user_roles to_upper_case
bob_is_admitted = refl

admit-IsAdmitted_example :
    (site ≡ site)
    × ((is_public all_users_endpoint ≡ true)
        ⊎ ((u : Users) × (some bob ≡ some u)
            × IsAdmitted passport all_users_endpoint get_request site u))
admit-IsAdmitted_example =
    admit-IsAdmitted memory plain_argon signing passport all_users_endpoint get_request site site
      (some bob) bob_is_admitted

-- A level that is no level but a name that every object has: nothing is logged.
constructor_level : resolve_log_levels (some " Constructor ") ≡ some []
unfolding resolve_log_levels trim to_lower_case
constructor_level = refl

tag_of_a_name : generate_wallet_tag "  J. Doe" "00ff" ≡ "j-do-00ff"
unfolding generate_wallet_tag slug collapse strip_start strip_end take_characters to_lower_case
tag_of_a_name = refl
