-- ===== src/Http/Inputs.antt =====
-- Bodies as the inputs that the handlers take them for (src/features/auth/dto,
-- src/features/users/dto): the decorated classes are types, which no value is turned into.
use lior_paris_wallet.Prelude.{String, Option, none, some, str_eq, if◌then◌else◌}
use lior_paris_wallet.Entities.{UserRole}
use lior_paris_wallet.Users.Repository.{UserPatch}
use lior_paris_wallet.Auth.{RegisterDto}
use lior_paris_wallet.Http.Json.{Json, undefined, null, boolean, number, text, array, object, field}

abbrev pub as_text : Json → Option String
as_text undefined = none
as_text null = none
as_text (boolean b) = none
as_text (number n) = none
as_text (text s) = some s
as_text (array xs) = none
as_text (object ms) = none

-- A text, or nothing where the value is `undefined`.
abbrev pub as_optional : Json → Option (Option String)
as_optional undefined = some none
as_optional null = none
as_optional (boolean b) = none
as_optional (number n) = none
as_optional (text s) = some (some s)
as_optional (array xs) = none
as_optional (object ms) = none

-- The body as the `RegisterDto` that the handler takes it for, if it is one.
unfoldable pub register_input : Json → Option RegisterDto
register_input v = elim (as_text (field "name" v)) [
  | none ↦ none
  | some name ↦ elim (as_text (field "email" v)) [
    | none ↦ none
    | some address ↦ elim (as_text (field "password" v)) [
      | none ↦ none
      | some password ↦ some (record { name = name; email = address; password = password })
    ]
  ]
]

abbrev role_of : String → Option UserRole
role_of s =
    if str_eq s "ADMIN"
    then some UserRole.admin
    else if str_eq s "USER"
    then some UserRole.user
    else none

-- A role, or nothing where the value is `undefined`.
abbrev pub as_role : Option (Option String) → Option (Option UserRole)
as_role none = none
as_role (some none) = some none
as_role (some (some s)) = elim (role_of s) [ none ↦ none | some role ↦ some (some role) ]

-- The body as the changes that `updateUserDetails` writes, if it is one: whatever a column's name names.
unfoldable pub user_patch : Json → Option UserPatch
user_patch v = elim (as_optional (field "name" v)) [
  | none ↦ none
  | some name ↦ elim (as_optional (field "email" v)) [
    | none ↦ none
    | some address ↦ elim (as_optional (field "password" v)) [
      | none ↦ none
      | some password ↦ elim (as_role (as_optional (field "role" v))) [
        | none ↦ none
        | some role ↦
            some (record { name = name; email = address; password = password; role = role })
      ]
    ]
  ]
]
