-- ===== src/Examples/Bodies.antt =====
-- Bodies, and a zod that lets a value through as it is or not at all.

use lior_paris_wallet.Prelude.{
  String, ◌≡◌, ◌≢◌, ◌⊎◌, ◌∙◌, refl, Bool, true, false, not, ◌&&◌, ◌||◌, inl, inr, Option, none,
  some, List, [], Memᴰ, str_eq, eq_iff, leb, Bool-cases, arith,
}
use lior_paris_wallet.Prelude.Rows.{any, any-false}
use lior_paris_wallet.Auth.{RegisterDto}
use lior_paris_wallet.Auth.RoleGuard.{any-true}
use lior_paris_wallet.Users.Repository.{UserPatch}
use lior_paris_wallet.Http.Json.{
  Json, Members, undefined, null, boolean, number, text, array, object, no_members, member, field,
  lookup,
}
use lior_paris_wallet.Http.Pipes.{
  Parsed, success, failure, accepted, transform_zod, value_to_parse, body_param,
}
use lior_paris_wallet.Http.Schemas.{
  Zod, ObjectSchema, Field, Leaf, StringCheck, Holds, Fits, string, native_enum, email, min, max,
  body_schema, update_schema, register_schema,
}
use lior_paris_wallet.Http.Inputs.{as_text, register_input, user_patch}
use lior_paris_wallet.Http.Bodies.{register_body-typed, update_body-patch, IsPassword}
use lior_paris_wallet.Wallet.Tags.{length_text}
use lior_paris_wallet.Examples.Http.{nest}

abbrev given : String → Bool
given s = not (str_eq s "")

abbrev holds : StringCheck → String → Bool
holds email s = given s
holds (min n) s = leb n (length_text s)
holds (max n) s = leb (length_text s) n

holds-Holds : (c : StringCheck) (s : String) → holds c s ≡ true → Holds given length_text c s
holds-Holds email s h = h
holds-Holds (min n) s h = ground (arith, h)
holds-Holds (max n) s h = ground (arith, h)

abbrev fits_text : Leaf → String → Bool
fits_text (string checks) s = not (any (λ c. not (holds c s)) checks)
fits_text (native_enum values) s = any (λ v. str_eq v s) values

abbrev fits : Leaf → Option String → Bool
fits leaf none = false
fits leaf (some s) = fits_text leaf s

fits_text-Fits :
    (leaf : Leaf) (s : String) → fits_text leaf s ≡ true → Fits given length_text leaf (text s)
fits_text-Fits (string checks) s h = (
  s,
  refl,
  λ c m.
      let unfit = any-false (λ (d : StringCheck). not (holds d s)) checks (ground (arith, h)) m in
      holds-Holds c s (ground (arith, unfit)),
)
fits_text-Fits (native_enum values) s h =
    let (v, m, same) = any-true (λ v. str_eq v s) values h in
    let equal : v ≡ s = (eq_iff v s).0 same in (s, refl, rw equal at m)

fits-Fits : (leaf : Leaf) (v : Json) → fits leaf (as_text v) ≡ true → Fits given length_text leaf v
fits-Fits leaf (text s) h = fits_text-Fits leaf s h
fits-Fits leaf undefined h = cc
fits-Fits leaf null h = cc
fits-Fits leaf (boolean b) h = cc
fits-Fits leaf (number n) h = cc
fits-Fits leaf (array xs) h = cc
fits-Fits leaf (object ms) h = cc

abbrev is_undefined : Json → Bool
is_undefined undefined = true
is_undefined null = false
is_undefined (boolean b) = false
is_undefined (number n) = false
is_undefined (text s) = false
is_undefined (array xs) = false
is_undefined (object ms) = false

is_undefined-eq : (v : Json) → is_undefined v ≡ true → v ≡ undefined
is_undefined-eq undefined h = refl
is_undefined-eq null h = cc
is_undefined-eq (boolean b) h = cc
is_undefined-eq (number n) h = cc
is_undefined-eq (text s) h = cc
is_undefined-eq (array xs) h = cc
is_undefined-eq (object ms) h = cc

abbrev field_ok : Json → Field → Bool
field_ok v f = fits f.leaf (as_text (field f.key v)) || (f.optional && is_undefined (field f.key v))

abbrev known : List Field → Members → Bool
known fields no_members = true
known fields (member key value ms) = any (λ (f : Field). str_eq f.key key) fields && known fields ms

abbrev is_known : List Field → Json → Bool
is_known fields (object ms) = known fields ms
is_known fields undefined = false
is_known fields null = false
is_known fields (boolean b) = false
is_known fields (number n) = false
is_known fields (text s) = false
is_known fields (array xs) = false

lookup-unknown :
    (fields : List Field) (ms : Members) (key : String)
    → known fields ms ≡ true
    → ((f : Field) → Memᴰ f fields → f.key ≢ key)
    → lookup key ms ≡ undefined
lookup-unknown fields no_members key h other = refl
lookup-unknown fields (member name value ms) key h other = elim (Bool-cases (str_eq name key)) [
  | inr differs ↦ rw differs (lookup-unknown fields ms key (ground (arith, h)) other)
  | inl here ↦
      let (f, m, same) = any-true (λ (f : Field). str_eq f.key name) fields (ground (arith, h)) in
      absurd (other f m ((eq_iff f.key name).0 same ∙ (eq_iff name key).0 here))
]

field-unknown :
    (fields : List Field) (v : Json) (key : String)
    → is_known fields v ≡ true
    → ((f : Field) → Memᴰ f fields → f.key ≢ key)
    → field key v ≡ undefined
field-unknown fields (object ms) key h other = lookup-unknown fields ms key h other
field-unknown fields undefined key h other = refl
field-unknown fields null key h other = refl
field-unknown fields (boolean b) key h other = refl
field-unknown fields (number n) key h other = refl
field-unknown fields (text s) key h other = refl
field-unknown fields (array xs) key h other = refl

abbrev passes : Bool → Json → Parsed
passes true v = success v
passes false v = failure []

passes-success : (b : Bool) (v v' : Json) → passes b v ≡ success v' → (b ≡ true) × (v ≡ v')
passes-success true v v' h = (refl, cc)
passes-success false v v' h = cc

abbrev object_ok : ObjectSchema → Json → Bool
object_ok s v = not (any (λ f. not (field_ok v f)) s.fields) && is_known s.fields v

field_ok-cases :
    (s : ObjectSchema) (v v' : Json) (f : Field)
    → passes (object_ok s v) v ≡ success v'
    → Memᴰ f s.fields
    → Fits given length_text f.leaf (field f.key v')
      ⊎ ((f.optional ≡ true) × (field f.key v' ≡ undefined))
field_ok-cases s v v' f h m =
    let (ok, same) = passes-success _ v v' h in
    let bad = any-false (λ g. not (field_ok v g)) s.fields (ground (arith, ok)) m in
    let cases : Fits given length_text f.leaf (field f.key v)
        ⊎ ((f.optional ≡ true) × (field f.key v ≡ undefined)) =
      elim (Bool-cases (fits f.leaf (as_text (field f.key v)))) [
        | inl there ↦ inl (fits-Fits f.leaf (field f.key v) there)
        | inr out ↦
            inr
              (ground (arith, bad, out), is_undefined-eq (field f.key v) (ground (arith, bad, out)))
      ] in
    rw same at cases

abbrev cautious_zod : Zod
cautious_zod = record {
  is_email = given;
  length = length_text;
  parse_leaf = λ leaf v. passes (fits leaf (as_text v)) v;
  parse_leaf-success =
      λ leaf v v' h. let (ok, same) = passes-success _ v v' h in rw same at (fits-Fits leaf v ok);
  parse_object = λ s v. passes (object_ok s v) v;
  parse_object-field = λ s v v' f h m. field_ok-cases s v v' f h m;
  parse_object-other = λ s v v' key h other.
      let (ok, same) = passes-success _ v v' h in
      rw same at (field-unknown s.fields v key (ground (arith, ok)) other);
}

abbrev eve_body : Json
eve_body = object (
    member "name" (text "Eve")
      (member "email" (text "eve@x.io") (member "password" (text "secret12") no_members)))

eve_is_let_in :
    transform_zod nest (body_schema cautious_zod register_schema) eve_body body_param
    ≡ accepted eve_body
unfolding transform_zod value_to_parse
eve_is_let_in = refl

register_body-typed_example :
    (input : RegisterDto) × (register_input eve_body ≡ some input)
    × (given input.email ≡ true)
    × IsPassword nest cautious_zod input.password
register_body-typed_example = register_body-typed nest cautious_zod eve_body eve_body eve_is_let_in

abbrev rename : Json
rename = object (member "name" (text "Eva") no_members)

rename_is_let_in :
    transform_zod nest (update_schema cautious_zod) rename body_param ≡ accepted rename
unfolding transform_zod value_to_parse
rename_is_let_in = refl

update_body-patch_example :
    (changes : UserPatch) × (user_patch rename ≡ some changes)
    × (changes.email ≡ none)
    × (changes.password ≡ none)
    × ((key : String) → "name" ≢ key → "role" ≢ key → field key rename ≡ undefined)
update_body-patch_example = update_body-patch nest cautious_zod rename rename rename_is_let_in
