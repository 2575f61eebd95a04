-- ===== src/Http/Json.antt =====
-- The values that a request's body may hold, as JavaScript has them, and what the program asks of them.
use lior_paris_wallet.Prelude.{zero, suc, String, Bool, true, false, not, str_eq, if◌then◌else◌}
use lior_paris_wallet.Prelude.Int.{ℤ, pos, negsuc}

mutual
  pub data Json : Type 0 where
    undefined null : Json
    boolean : Bool → Json
    number : ℤ → Json
    text : String → Json
    array : Items → Json
    object : Members → Json

  pub data Items : Type 0 where
    no_items : Items
    item : Json → Items → Items

  pub data Members : Type 0 where
    no_members : Members
    member : String → Json → Members → Members

-- `if (value)`
abbrev pub truthy : Json → Bool
truthy undefined = false
truthy null = false
truthy (boolean b) = b
truthy (number (pos zero)) = false
truthy (number (pos (suc n))) = true
truthy (number (negsuc n)) = true
truthy (text s) = not (str_eq s "")
truthy (array xs) = true
truthy (object ms) = true

-- `typeof value === 'object'`
abbrev pub is_object : Json → Bool
is_object undefined = false
is_object null = true
is_object (boolean b) = false
is_object (number n) = false
is_object (text s) = false
is_object (array xs) = true
is_object (object ms) = true

abbrev pub lookup : String → Members → Json
lookup key no_members = undefined
lookup key (member name value ms) = if str_eq name key then value else lookup key ms

-- `value[key]` of a value that is not `null` or `undefined`, for a key that no prototype has.
abbrev pub field : String → Json → Json
field key (object ms) = lookup key ms
field key undefined = undefined
field key null = undefined
field key (boolean b) = undefined
field key (number n) = undefined
field key (text s) = undefined
field key (array xs) = undefined
