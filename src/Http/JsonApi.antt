-- ===== src/Http/JsonApi.antt =====
-- src/shared/jsonapi/jsonapi.ts. A field that a document leaves out is `none`.
use lior_paris_wallet.Prelude.{ℕ, String, Option, none, some}

pub record JsonApiResource (A : Type 0) : Type 0 where
  pub type : String
  pub id : ℕ
  pub attributes : A

-- A document without errors: the answer of a handler that returns.
pub record JsonApiDocument (D M L : Type 0) : Type 0 where
  pub content : Option D
  pub meta : Option M
  pub links : Option L

module _ {D M L : Type 0} where
  abbrev pub json_api_data : D → Option M → Option L → JsonApiDocument D M L
  json_api_data d meta links = record { content = some d; meta = meta; links = links }

  abbrev pub json_api_meta : M → JsonApiDocument D M L
  json_api_meta meta = record { content = none; meta = some meta; links = none }
