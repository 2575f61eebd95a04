-- ===== src/Http/Envelope.antt =====
-- What the two pipes of src/shared/pipes take out of a request.
use lior_paris_wallet.Prelude.{◌≡◌, Option, some, arith, refl, ◌∙◌, sym}
use lior_paris_wallet.Http.Json.{Json}
use lior_paris_wallet.Http.Pipes.{
  Paramtype, body_param, query_param, path_param, custom_param, Checked, Parsed, Nest, checked,
  transform_json_api, transform_zod, value_to_parse,
}

-- The pipe of the application hands its validation the value that the pipe of a handler parses.
transform_json_api_lem :
    (validate : Json → Paramtype → Checked) (value : Json) (type : Paramtype)
    → transform_json_api validate value type ≡ validate (value_to_parse value type) type
unfolding transform_json_api value_to_parse
transform_json_api_lem validate value body_param = ground arith
transform_json_api_lem validate value query_param = refl
transform_json_api_lem validate value path_param = refl
transform_json_api_lem validate value custom_param = refl

-- From every request, the pipe of the application, were it to validate with the schema, and the pipe of
-- a handler that has the schema give the same answer.
pub transform_zod-transform_json_api :
    (nest : Nest) (schema : Paramtype → Option (Json → Parsed)) (safe_parse : Json → Parsed)
    (value : Json) (type : Paramtype)
    → schema type ≡ some safe_parse
    → transform_zod nest schema value type
      ≡ transform_json_api (λ v t. checked nest (safe_parse v)) value type
unfolding transform_zod
transform_zod-transform_json_api nest schema safe_parse value type has =
    let same : transform_zod nest schema value type
        ≡ checked nest (safe_parse (value_to_parse value type)) =
      ground arith in
    same ∙ sym (transform_json_api_lem (λ v t. checked nest (safe_parse v)) value type)
