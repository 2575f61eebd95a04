-- ===== src/Http/Pipes.antt =====
-- src/shared/pipes: the pipe of the whole application and the one of a handler with its zod schemas.
-- Nest's `ValidationPipe`, its exceptions and zod are not in the repository: parameters.
use lior_paris_wallet.Prelude.{
  String, ◌≡◌, Bool, true, false, ◌&&◌, Option, none, some, List, [], if◌then◌else◌,
}
use lior_paris_wallet.Http.Json.{Json, truthy, is_object, field}
use lior_paris_wallet.Http.Errors.{Issue, one, NestHttpExceptionResponse, body, HttpException}

-- `Paramtype`
pub data Paramtype : Type 0 where
  body_param query_param path_param custom_param : Paramtype

abbrev is_body : Paramtype → Bool
is_body body_param = true
is_body query_param = false
is_body path_param = false
is_body custom_param = false

-- A value, or what was thrown.
pub data Checked : Type 0 where
  accepted : Json → Checked
  refused : HttpException → Checked

-- `safeParse` of zod.
pub data Parsed : Type 0 where
  success : Json → Parsed
  failure : List Issue → Parsed

-- `JsonApiValidationPipe.transform`, with the `transform` of its parent.
unfoldable pub transform_json_api :
    (validate : Json → Paramtype → Checked) → Json → Paramtype → Checked
transform_json_api validate value type =
    if is_body type && truthy value && is_object value
    then (if truthy (field "data" value) && is_object (field "data" value)
        then (let attrs = field "attributes" (field "data" value) in
            if truthy attrs && is_object attrs then validate attrs type else validate value type)
        else validate value type)
    else validate value type

-- The value that `ZodValidationPipe` parses.
unfoldable pub value_to_parse : Json → Paramtype → Json
value_to_parse value type =
    if is_body type && truthy value && is_object value
    then (if truthy (field "data" value)
          && is_object (field "data" value)
          && truthy (field "attributes" (field "data" value))
          && is_object (field "attributes" (field "data" value))
        then field "attributes" (field "data" value)
        else value)
    else value

-- `new BadRequestException(…)` of a text and of an object: what the exception's methods return.
pub record Nest : Type 0 where
  pub bad_request_text : String → HttpException
  pub bad_request_text_lem :
      (message : String)
      → bad_request_text message ≡ record {
        status = 400;
        name = "BadRequestException";
        response = body (one message) (some "Bad Request") [];
      }
  pub bad_request : NestHttpExceptionResponse → HttpException
  pub bad_request_lem :
      (response : NestHttpExceptionResponse)
      → bad_request response
        ≡ record { status = 400; name = "BadRequestException"; response = response }

module _ (nest : Nest) where
  abbrev pub checked : Parsed → Checked
  checked (success result) = accepted result
  checked (failure issues) = refused (nest.bad_request (body (one "Validation failed") none issues))

  unfoldable pub transform_zod :
      (schema : Paramtype → Option (Json → Parsed)) → Json → Paramtype → Checked
  transform_zod schema value type = elim (schema type) [
    | none ↦ refused (nest.bad_request_text "Validation failed, schema not defined.")
    | some safe_parse ↦ checked (safe_parse (value_to_parse value type))
  ]
