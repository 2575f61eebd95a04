-- ===== src/Http/Schemas.antt =====
-- src/shared/schemas/index.ts: the schemas as the builder's calls describe them. What zod does with a
-- description is an interface.
use lior_paris_wallet.Prelude.{
  ℕ, String, ◌≡◌, ◌≢◌, ◌≤◌, ◌⊎◌, Bool, true, false, Option, none, some, List, [], ◌∷◌, map, Memᴰ,
}
use lior_paris_wallet.Http.Json.{Json, undefined, text, field}
use lior_paris_wallet.Http.Pipes.{
  Parsed, success, Paramtype, body_param, query_param, path_param, custom_param,
}

-- `.email()`, `.min(n)`, `.max(n)`
pub data StringCheck : Type 0 where
  email : StringCheck
  min max : ℕ → StringCheck

-- `z.string()` with its checks, and `z.nativeEnum(…)` by the enum's values.
pub data Leaf : Type 0 where
  string : List StringCheck → Leaf
  native_enum : List String → Leaf

pub record Field : Type 0 where
  pub key : String
  pub leaf : Leaf
  pub optional : Bool

pub data UnknownKeys : Type 0 where
  strip_them refuse_them : UnknownKeys

pub record ObjectSchema : Type 0 where
  pub fields : List Field
  pub unknown_keys : UnknownKeys

-- `z.object(…)`, `.strict()` and `.partial()`
abbrev pub required : String → Leaf → Field
required key leaf = record { key = key; leaf = leaf; optional = false }

abbrev pub object_of : List Field → ObjectSchema
object_of fields = record { fields = fields; unknown_keys = UnknownKeys.strip_them }

abbrev pub strict : ObjectSchema → ObjectSchema
strict s = record s { unknown_keys = UnknownKeys.refuse_them }

abbrev pub partial : ObjectSchema → ObjectSchema
partial s = record s { fields = map (λ (f : Field). record f { optional = true }) s.fields }

abbrev pub email_leaf : Leaf
email_leaf = string (email ∷ [])

abbrev pub password_leaf : Leaf
password_leaf = string (min 5 ∷ max 15 ∷ [])

abbrev pub login_schema : ObjectSchema
login_schema =
    strict (object_of (required "email" email_leaf ∷ required "password" password_leaf ∷ []))

abbrev pub register_schema : ObjectSchema
register_schema = strict (
    object_of (
      required "name" (string [])
      ∷ required "email" email_leaf
      ∷ required "password" password_leaf
      ∷ []))

abbrev pub change_password_schema : ObjectSchema
change_password_schema =
    strict
      (object_of (required "oldPassword" password_leaf ∷ required "newPassword" password_leaf ∷ []))

abbrev pub update_user_schema : ObjectSchema
update_user_schema = partial (
    object_of
      (required "name" (string []) ∷ required "role" (native_enum ("ADMIN" ∷ "USER" ∷ [])) ∷ []))

abbrev pub user_id_schema : Leaf
user_id_schema = string []

-- What a text has that passes the checks; `length` counts as JavaScript does.
abbrev pub Holds : (is_email : String → Bool) (length : String → ℕ) → StringCheck → String → Type 0
Holds is_email length email s = is_email s ≡ true
Holds is_email length (min n) s = n ≤ length s
Holds is_email length (max n) s = length s ≤ n

abbrev pub Fits : (is_email : String → Bool) (length : String → ℕ) → Leaf → Json → Type 0
Fits is_email length (string checks) v =
    (s : String) × (v ≡ text s) × ((c : StringCheck) → Memᴰ c checks → Holds is_email length c s)
Fits is_email length (native_enum values) v = (s : String) × (v ≡ text s) × Memᴰ s values

-- `safeParse`: what it returns as data has every field of the schema, or lacks one that is optional, and
-- no other.
pub record Zod : Type 0 where
  pub is_email : String → Bool
  pub length : String → ℕ
  pub parse_leaf : Leaf → Json → Parsed
  pub parse_leaf-success :
      (leaf : Leaf) (v v' : Json) → parse_leaf leaf v ≡ success v' → Fits is_email length leaf v'
  pub parse_object : ObjectSchema → Json → Parsed
  pub parse_object-field :
      (s : ObjectSchema) (v v' : Json) (f : Field)
      → parse_object s v ≡ success v'
      → Memᴰ f s.fields
      → Fits is_email length f.leaf (field f.key v')
        ⊎ ((f.optional ≡ true) × (field f.key v' ≡ undefined))
  pub parse_object-other :
      (s : ObjectSchema) (v v' : Json) (key : String)
      → parse_object s v ≡ success v'
      → ((f : Field) → Memᴰ f s.fields → f.key ≢ key)
      → field key v' ≡ undefined

module _ (zod : Zod) where
  -- `new ZodValidationPipe({ body })`
  abbrev pub body_schema : ObjectSchema → Paramtype → Option (Json → Parsed)
  body_schema s body_param = some (zod.parse_object s)
  body_schema s query_param = none
  body_schema s path_param = none
  body_schema s custom_param = none

  -- `new ZodValidationPipe({ body: updateUserSchema, param: userIdSchema })`
  abbrev pub update_schema : Paramtype → Option (Json → Parsed)
  update_schema body_param = some (zod.parse_object update_user_schema)
  update_schema query_param = none
  update_schema path_param = some (zod.parse_leaf user_id_schema)
  update_schema custom_param = none
