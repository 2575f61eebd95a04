-- ===== src/Http/Bodies.antt =====
-- What the handlers of src/features/auth and src/features/users get of a body that their pipes have let
-- through (src/shared/pipes/zod-validation.pipe.ts, src/shared/schemas/index.ts).
use lior_paris_wallet.Prelude.{
  ◌≢◌, String, ◌≡◌, ◌≤◌, ◌⊎◌, ◌∙◌, refl, sym, ap, true, false, inl, inr, Option, none, some, [],
  ◌∷◌, Memᴰ, str_eq, eq_iff, arith,
}
use mathlib.Core.List.Memᴰ
use lior_paris_wallet.Entities.{UserRole}
use lior_paris_wallet.Users.Repository.{UserPatch}
use lior_paris_wallet.Auth.{RegisterDto}
use lior_paris_wallet.Http.Json.{Json, undefined, text, field}
use lior_paris_wallet.Http.Pipes.{
  Parsed, success, failure, Nest, accepted, transform_zod, value_to_parse, Paramtype, body_param,
}
use lior_paris_wallet.Http.Schemas.{
  Zod, ObjectSchema, Field, Leaf, Fits, string, email, min, max, native_enum, required, email_leaf,
  password_leaf, body_schema, update_schema, register_schema, update_user_schema,
}
use lior_paris_wallet.Http.Inputs.{as_optional, as_role, register_input, user_patch}

other_text : (s t : String) → str_eq s t ≡ false → s ≢ t
other_text s t differs same = ground (arith, differs, same, eq_iff s t)

abbrev name_field : Field
name_field = record { key = "name"; leaf = string []; optional = true }

abbrev role_field : Field
role_field = record { key = "role"; leaf = native_enum ("ADMIN" ∷ "USER" ∷ []); optional = true }

module _ (nest : Nest) (zod : Zod) where
  -- What a pipe accepts, its schema has returned.
  accepted_by :
      (schemas : Paramtype → Option (Json → Parsed)) (s : ObjectSchema) (v v' : Json)
      → schemas body_param ≡ some (zod.parse_object s)
      → transform_zod nest schemas v body_param ≡ accepted v'
      → zod.parse_object s (value_to_parse v body_param) ≡ success v'
  unfolding transform_zod
  accepted_by schemas s v v' by e = go (zod.parse_object s (value_to_parse v body_param)) refl
    where
      go :
          (p : Parsed)
          → zod.parse_object s (value_to_parse v body_param) ≡ p
          → zod.parse_object s (value_to_parse v body_param) ≡ success v'
      go (success w) q = ground (arith, e, q, by)
      go (failure issues) q = absurd (ground (arith, e, q, by))

  -- A field that the schema requires is there and fits.
  field-Fits :
      (s : ObjectSchema) (v v' : Json) (key : String) (leaf : Leaf)
      → zod.parse_object s v ≡ success v'
      → Memᴰ (required key leaf) s.fields
      → Fits zod.is_email zod.length leaf (field key v')
  field-Fits s v v' key leaf e m = elim (zod.parse_object-field s v v' (required key leaf) e m) [
    | inl fits ↦ fits
    | inr (optional, missing) ↦ absurd (ground (arith, optional))
  ]

  -- A password that fits has 5 to 15 characters.
  abbrev pub IsPassword : String → Type 0
  IsPassword s = (5 ≤ zod.length s) × (zod.length s ≤ 15)

  -- A body that the pipe of the registration lets through is a `RegisterDto`, its email is one and its
  -- password has 5 to 15 characters.
  pub register_body-typed :
      (v v' : Json)
      → transform_zod nest (body_schema zod register_schema) v body_param ≡ accepted v'
      → (input : RegisterDto) × (register_input v' ≡ some input)
        × (zod.is_email input.email ≡ true)
        × IsPassword input.password
  unfolding register_input
  register_body-typed v v' e =
      let parsed = accepted_by (body_schema zod register_schema) register_schema v v' refl e in
      let at = field-Fits register_schema (value_to_parse v body_param) v' in
      let (name, is_name, any_name) = at "name" (string []) parsed (Memᴰ.head refl) in
      let (address, is_address, fits) = at "email" email_leaf parsed (Memᴰ.tail (Memᴰ.head refl)) in
      let (password, is_password, holds) =
        at "password" password_leaf parsed (Memᴰ.tail (Memᴰ.tail (Memᴰ.head refl))) in
      (
        record { name = name; email = address; password = password },
        ground (arith, is_name, is_address, is_password),
        fits email (Memᴰ.head refl),
        (holds (min 5) (Memᴰ.head refl), holds (max 15) (Memᴰ.tail (Memᴰ.head refl))),
      )

  -- An optional field that has been let through is a text that fits, or nothing.
  optional_text :
      (f : Field) (w : Json)
      → Fits zod.is_email zod.length f.leaf w ⊎ ((f.optional ≡ true) × (w ≡ undefined))
      → (s : Option String) × (as_optional w ≡ some s)
  optional_text f w (inr (optional, missing)) = (none, rw missing refl)
  optional_text f w (inl fits) = let (s, is) = fitting_text f.leaf fits in (some s, rw is refl)
    where
      fitting_text :
          (leaf : Leaf) → Fits zod.is_email zod.length leaf w → (s : String) × (w ≡ text s)
      fitting_text (string checks) (s, is, holds) = (s, is)
      fitting_text (native_enum values) (s, is, m) = (s, is)

  optional_role :
      (w : Json)
      → Fits zod.is_email zod.length (native_enum ("ADMIN" ∷ "USER" ∷ [])) w
        ⊎ ((true ≡ true) × (w ≡ undefined))
      → (role : Option UserRole) × (as_role (as_optional w) ≡ some role)
  optional_role w (inr (optional, missing)) = (none, rw missing refl)
  optional_role w (inl (s, is, m)) = elim (Memᴰ.cases_cons m) [
    | inl admin ↦ (some UserRole.admin, rw (is, admin) refl)
    | inr t ↦ (some UserRole.user, rw (is, Memᴰ.eq_of_singleton t) refl)
  ]

  -- What the schema does not name is not there.
  only_patch :
      (v v' : Json) (key : String)
      → zod.parse_object update_user_schema v ≡ success v'
      → "name" ≢ key
      → "role" ≢ key
      → field key v' ≡ undefined
  only_patch v v' key parsed no_name no_role =
      zod.parse_object-other update_user_schema v v' key parsed (λ f m same.
        elim (Memᴰ.cases_cons m) [
          | inl first ↦ no_name (sym (ap (λ (g : Field). g.key) first) ∙ same)
          | inr t ↦ no_role (sym (ap (λ (g : Field). g.key) (Memᴰ.eq_of_singleton t)) ∙ same)
        ])

  -- A body that the pipe of the update lets through is a change of the name, of the role, of both or of
  -- neither; it has no other key, so no email and no password comes to the handler.
  pub update_body-patch :
      (v v' : Json)
      → transform_zod nest (update_schema zod) v body_param ≡ accepted v'
      → (changes : UserPatch) × (user_patch v' ≡ some changes)
        × (changes.email ≡ none)
        × (changes.password ≡ none)
        × ((key : String) → "name" ≢ key → "role" ≢ key → field key v' ≡ undefined)
  unfolding user_patch
  update_body-patch v v' e =
      let parsed = accepted_by (update_schema zod) update_user_schema v v' refl e in
      let w = value_to_parse v body_param in
      let (name, is_name) =
        optional_text name_field (field "name" v')
          (zod.parse_object-field update_user_schema w v' name_field parsed (Memᴰ.head refl)) in
      let (role, is_role) = optional_role (field "role" v') (
        zod.parse_object-field update_user_schema w v' role_field parsed
          (Memᴰ.tail (Memᴰ.head refl))) in
      let no_email =
        only_patch w v' "email" parsed (other_text "name" "email" refl)
          (other_text "role" "email" refl) in
      let no_password =
        only_patch w v' "password" parsed (other_text "name" "password" refl)
          (other_text "role" "password" refl) in
      (
        record { name = name; email = none; password = none; role = role },
        ground (arith, is_name, is_role, no_email, no_password),
        refl,
        refl,
        λ key no_name no_role. only_patch w v' key parsed no_name no_role,
      )
