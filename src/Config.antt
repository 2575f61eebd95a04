-- ===== src/Config.antt =====
-- src/shared/config/config.utils.ts, and what src/infrastructure/database/ormconfig.ts,
-- src/infrastructure/queue/queue.module.ts, src/features/wallet/wallet.module.ts and
-- src/features/auth/auth.module.ts make of the configuration.
pub mod Numbers
pub mod Connections
use Prim.Native.Char.{Char, code}
use Prim.Native.String.{[], ◌∷◌, ◌++◌ as ◌&◌}
use lior_paris_wallet.Prelude.{
  ℕ, ◌+◌, ◌-◌, ◌*◌, String, Bool, true, false, not, ◌&&◌, Option, none, some, leb, str_eq,
  if◌then◌else◌,
}
use lior_paris_wallet.Prelude.Texts.{trim}
use lior_paris_wallet.Result.{Result, ok, err, error}

-- `ConfigService.get`: a variable of the environment or of `.env`, if it is set. All of them are texts.
abbrev pub ConfigService : Type 0
ConfigService = String → Option String

-- `value ?? fallback`
abbrev pub or_default : Option String → String → String
or_default none fallback = fallback
or_default (some value) fallback = value

abbrev pub missing : String → String
missing key = "Missing required env var: " & key

unfoldable pub required : String → Option String → Result String
required key none = err (error (missing key))
required key (some value) = if str_eq value "" then err (error (missing key)) else ok value

unfoldable pub get_required_string : ConfigService → String → Result String
unfolding required
get_required_string config key = required key (config key)

-- A number of JavaScript; one that is finite and no natural number is known by its text.
pub data JsNumber : Type 0 where
  natural : ℕ → JsNumber
  finite : String → JsNumber
  infinite not_a_number : JsNumber

abbrev pub is_digit : Char → Bool
is_digit c = leb 48 (code c) && leb (code c) 57

unfoldable pub all_digits : String → Bool
all_digits [] = true
all_digits (c ∷ s) = is_digit c && all_digits s

-- The value of decimal digits, after those that have made `n`.
unfoldable pub value_from : ℕ → String → ℕ
value_from n [] = n
value_from n (c ∷ s) = value_from (n * 10 + (code c - 48)) s

-- `Number(text)`: a text of blanks is 0, and one of digits its value below 2^53; `other` reads those with
-- a sign, a point, an exponent or a prefix, and those that are no number.
unfoldable pub number_of_text : (other : String → JsNumber) → String → JsNumber
number_of_text other text =
    if str_eq text ""
    then natural 0
    else if all_digits text
    then natural (value_from 0 text)
    else other text

-- `Number(raw)`; that of `undefined` is no number.
unfoldable pub to_number : (other : String → JsNumber) → Option String → JsNumber
unfolding number_of_text
to_number other none = not_a_number
to_number other (some raw) = number_of_text other (trim raw)

-- `Number.isFinite(value) ? value : fallback`
abbrev pub if_finite : ℕ → JsNumber → JsNumber
if_finite fallback (natural n) = natural n
if_finite fallback (finite text) = finite text
if_finite fallback infinite = natural fallback
if_finite fallback not_a_number = natural fallback

unfoldable pub get_number :
    (other : String → JsNumber) → ConfigService → (key : String) → (fallback : ℕ) → JsNumber
unfolding to_number
get_number other config key fallback = if_finite fallback (to_number other (config key))
