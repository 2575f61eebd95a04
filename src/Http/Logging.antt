-- ===== src/Http/Logging.antt =====
-- src/shared/logging: which levels are logged, and which errors.
use lior_paris_wallet.Prelude.{
  ℕ, String, Bool, true, false, Option, none, some, List, [], ◌∷◌, str_eq, leb, ltb, if◌then◌else◌,
}
use lior_paris_wallet.Prelude.Rows.{filter_in}
use lior_paris_wallet.Prelude.Texts.{trim, to_lower_case}

pub data LogLevel : Type 0 where
  fatal error_level warn log debug verbose : LogLevel

-- `Object.keys(order)`
abbrev pub levels : List LogLevel
levels = fatal ∷ error_level ∷ warn ∷ log ∷ debug ∷ verbose ∷ []

abbrev pub order : LogLevel → ℕ
order fatal = 0
order error_level = 0
order warn = 2
order log = 3
order debug = 4
order verbose = 5

-- `order[requested]`, where `requested in order`: a rank, or what `Object.prototype` has of the name,
-- which no rank is below.
pub data Rank : Type 0 where
  rank : ℕ → Rank
  inherited : Rank

-- Of the names that `Object.prototype` has, those that are in lower case.
abbrev pub is_inherited : String → Bool
is_inherited name = if str_eq name "constructor" then true else str_eq name "__proto__"

abbrev pub rank_of : String → Option Rank
rank_of name =
    if str_eq name "fatal"
    then some (rank 0)
    else if str_eq name "error"
    then some (rank 0)
    else if str_eq name "warn"
    then some (rank 2)
    else if str_eq name "log"
    then some (rank 3)
    else if str_eq name "debug"
    then some (rank 4)
    else if str_eq name "verbose"
    then some (rank 5)
    else if is_inherited name
    then some inherited
    else none

abbrev pub is_at_most : Rank → LogLevel → Bool
is_at_most (rank n) level = leb (order level) n
is_at_most inherited level = false

abbrev pub levels_up_to : Option Rank → Option (List LogLevel)
levels_up_to none = none
levels_up_to (some requested) = some (filter_in (is_at_most requested) levels)

-- `(rawValue ?? '').trim().toLowerCase()`
abbrev pub raw_level : Option String → String
raw_level none = ""
raw_level (some value) = to_lower_case (trim value)

unfoldable pub resolve_log_levels : Option String → Option (List LogLevel)
resolve_log_levels raw_value =
    if str_eq (raw_level raw_value) "" then none else levels_up_to (rank_of (raw_level raw_value))

-- What a handler has caught: an exception of Nest, another `Error`, a text, or anything else.
pub data Caught : Type 0 where
  http_exception : (status : ℕ) → (message : String) → Caught
  plain_error : (message : String) → Caught
  thrown_text : String → Caught
  thrown_value : Caught

-- What is logged as an error, if anything is.
unfoldable pub log_if_unexpected_or_server_error : Caught → Option String
log_if_unexpected_or_server_error (http_exception status message) =
    if ltb status 500 then none else some message
log_if_unexpected_or_server_error (plain_error message) = some message
log_if_unexpected_or_server_error (thrown_text text) = some text
log_if_unexpected_or_server_error thrown_value = some "Unexpected error"
