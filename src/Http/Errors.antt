-- ===== src/Http/Errors.antt =====
-- src/shared/filters/jsonapi-exception.filter.ts. A status is given as its number, which the program
-- prints, and so is an index in an issue's path.
use Prim.Native.String.{◌++◌ as ◌&◌}
use lior_paris_wallet.Prelude.{
  ℕ, String, Bool, false, ◌==◌, Option, none, some, List, [], ◌∷◌, ◌++◌, map, str_eq, if◌then◌else◌,
}
use lior_paris_wallet.Prelude.Texts.{first_word, join_path}

-- An issue of zod: its path, if it has one, and the keys that it does not know, if it is of that kind.
pub record Issue : Type 0 where
  pub path : Option (List String)
  pub message : String
  pub code : Option String
  pub keys : Option (List String)

pub data Messages : Type 0 where
  no_message : Messages
  one : String → Messages
  several : List String → Messages

-- `NestHttpExceptionResponse`
pub data NestHttpExceptionResponse : Type 0 where
  plain : String → NestHttpExceptionResponse
  body :
      (texts : Messages) (error : Option String) (issues : List Issue) → NestHttpExceptionResponse

pub record HttpException : Type 0 where
  pub status : ℕ
  pub name : String
  pub response : NestHttpExceptionResponse

-- What may be thrown: an exception of Nest, another object with its message, or no object.
pub data Thrown : Type 0 where
  http : HttpException → Thrown
  other_object : (message : Option String) → Thrown
  no_object : Thrown

pub record JsonApiErrorObject : Type 0 where
  pub status : ℕ
  pub title : String
  pub detail : Option String
  pub code : Option String
  pub pointer : Option String

abbrev pub attribute : String → String
attribute name = "/data/attributes/" & name

unfoldable pub to_pointer_from_path : Option (List String) → Option String
to_pointer_from_path none = none
to_pointer_from_path (some []) = none
to_pointer_from_path (some (s ∷ path)) = some (attribute (join_path (s ∷ path)))

abbrev pub validation_error : String
validation_error = "VALIDATION_ERROR"

abbrev pub unrecognized : Option String → Bool
unrecognized none = false
unrecognized (some code) = str_eq code "unrecognized_keys"

unfoldable pub normalize_messages : Messages → List String
normalize_messages no_message = []
normalize_messages (one message) = if str_eq message "" then [] else message ∷ []
normalize_messages (several messages) = messages

module _ (status : ℕ) (title : String) where
  abbrev pub error_of_key : String → JsonApiErrorObject
  error_of_key key = record {
    status = status;
    title = title;
    detail = some ("Unrecognized field: " & key);
    code = some validation_error;
    pointer = some (attribute key);
  }

  abbrev pub error_of_path : Issue → JsonApiErrorObject
  error_of_path issue = record {
    status = status;
    title = title;
    detail = some issue.message;
    code = some validation_error;
    pointer = to_pointer_from_path issue.path;
  }

  -- The errors of one issue: one for each key that is not known, or one for its path.
  abbrev pub errors_from_keys : Issue → Option (List String) → List JsonApiErrorObject
  errors_from_keys issue none = error_of_path issue ∷ []
  errors_from_keys issue (some keys) =
      if unrecognized issue.code then map error_of_key keys else error_of_path issue ∷ []

  unfoldable pub errors_from_zod_issues : List Issue → List JsonApiErrorObject
  errors_from_zod_issues [] = []
  errors_from_zod_issues (issue ∷ issues) =
      errors_from_keys issue issue.keys ++ errors_from_zod_issues issues

  -- The first word of the message is taken for the name of a field.
  abbrev pub error_of_message : String → JsonApiErrorObject
  error_of_message message = record {
    status = status;
    title = title;
    detail = some message;
    code = if status == 400 then some validation_error else none;
    pointer =
        if str_eq (first_word message) "" then none else some (attribute (first_word message));
  }

  unfoldable pub errors_from_messages : List String → List JsonApiErrorObject
  errors_from_messages messages = map error_of_message messages

  abbrev pub bare_error : Option String → JsonApiErrorObject
  bare_error detail = record {
    status = status;
    title = title;
    detail = detail;
    code = none;
    pointer = none;
  }

  -- `messages.length > 0`
  abbrev pub errors_or_bare : Option String → List String → List JsonApiErrorObject
  errors_or_bare error [] = bare_error error ∷ []
  errors_or_bare error (message ∷ messages) = errors_from_messages (message ∷ messages)

  unfoldable pub errors_from_http_response : NestHttpExceptionResponse → List JsonApiErrorObject
  errors_from_http_response (plain res) = bare_error (some res) ∷ []
  errors_from_http_response (body texts error (issue ∷ issues)) =
      errors_from_zod_issues (issue ∷ issues)
  errors_from_http_response (body texts error []) = errors_or_bare error (normalize_messages texts)

-- The answer: its status and its errors.
pub record ErrorResponse : Type 0 where
  pub status : ℕ
  pub errors : List JsonApiErrorObject

abbrev pub internal_server_error : ℕ
internal_server_error = 500

unfoldable pub catch : Thrown → ErrorResponse
catch (http e) = record {
  status = e.status;
  errors = errors_from_http_response e.status e.name e.response;
}
catch (other_object message) = record {
  status = internal_server_error;
  errors = bare_error internal_server_error "InternalServerError" message ∷ [];
}
catch no_object = record {
  status = internal_server_error;
  errors = bare_error internal_server_error "InternalServerError" none ∷ [];
}
