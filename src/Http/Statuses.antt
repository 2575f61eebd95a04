-- ===== src/Http/Statuses.antt =====
-- The statuses of what a client is answered (src/shared/filters/jsonapi-exception.filter.ts).
use mathlib.Core.List.Memᴰ
use lior_paris_wallet.Prelude.{
  ℕ, String, ◌≡◌, ◌≢◌, ◌⊎◌, refl, ap, inl, inr, Option, List, [], ◌∷◌, Memᴰ, arith,
}
use lior_paris_wallet.Http.Errors.{
  body, plain, NestHttpExceptionResponse, HttpException, JsonApiErrorObject, Thrown, http,
  other_object, no_object, catch, error_of_message, errors_from_http_response, errors_from_messages,
  normalize_messages, errors_or_bare,
}
use lior_paris_wallet.Http.Refusals.{Describes-all, map_mem}

module _ (status : ℕ) (title : String) where
  messages-status :
      (error : Option String) (messages : List String) (x : JsonApiErrorObject)
      → Memᴰ x (errors_or_bare status title error messages)
      → x.status ≡ status
  unfolding errors_from_messages
  messages-status error [] x m = ap (λ (y : JsonApiErrorObject). y.status) (Memᴰ.eq_of_singleton m)
  messages-status error (message ∷ messages) x m =
      let (text, n, e) = map_mem (error_of_message status title) (message ∷ messages) m in
      ap (λ (y : JsonApiErrorObject). y.status) e

  response-status :
      (res : NestHttpExceptionResponse) (x : JsonApiErrorObject)
      → Memᴰ x (errors_from_http_response status title res)
      → x.status ≡ status
  unfolding errors_from_http_response
  response-status (plain res) x m =
      ap (λ (y : JsonApiErrorObject). y.status) (Memᴰ.eq_of_singleton m)
  response-status (body texts error []) x m = messages-status error (normalize_messages texts) x m
  response-status (body texts error (issue ∷ issues)) x m =
      let (other, n, d) = (Describes-all status title (issue ∷ issues) x).0 m in
      elim d [
        | inl (keys, key, h, k, e) ↦ ap (λ (y : JsonApiErrorObject). y.status) e
        | inr (unlike, e) ↦ ap (λ (y : JsonApiErrorObject). y.status) e
      ]

-- Whatever is thrown, the answer's errors have the status of the answer, which is the exception's, and
-- 500 for what is no exception of Nest.
catch_status :
    (thrown : Thrown)
    → ((x : JsonApiErrorObject) → Memᴰ x (catch thrown).errors → x.status ≡ (catch thrown).status)
      × (((e : HttpException) × (thrown ≡ http e) × ((catch thrown).status ≡ e.status))
          ⊎ (((e : HttpException) → thrown ≢ http e) × ((catch thrown).status ≡ 500)))
unfolding catch
catch_status (http e) = (response-status e.status e.name e.response, inl (e, refl, refl))
catch_status (other_object message) = (
  λ x m. ap (λ (y : JsonApiErrorObject). y.status) (Memᴰ.eq_of_singleton m),
  inr (λ e h. ground arith, refl),
)
catch_status no_object = (
  λ x m. ap (λ (y : JsonApiErrorObject). y.status) (Memᴰ.eq_of_singleton m),
  inr (λ e h. ground arith, refl),
)
