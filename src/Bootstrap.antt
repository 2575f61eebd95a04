-- ===== src/Bootstrap.antt =====
-- src/main.ts: the port, and the paths that the version of package.json and the webhook's parser name.
use Prim.Native.String.{[], ◌∷◌, ◌++◌ as ◌&◌}
use text.Mathlib.TextLemmas.{append_cancel_left, append_cancel_right, append_assoc}
use lior_paris_wallet.Prelude.{
  ℕ, ◌≡◌, ◌↔◌, refl, sym, ap, ◌∙◌, String, Option, none, some, str_eq, eq_iff, ◌⊎◌, inl, inr,
  if◌then◌else◌, arith,
}
use lior_paris_wallet.Prelude.Texts.{trim_start, decimal}
use lior_paris_wallet.Config.{ConfigService, value_from, is_digit}
use lior_paris_wallet.Config.Numbers.{value_from-decimal}

-- The digits that a text starts with.
abbrev pub leading_digits : String → String
leading_digits [] = []
leading_digits (c ∷ s) = if is_digit c then c ∷ leading_digits s else []

abbrev pub value_of : String → Option ℕ
value_of digits = if str_eq digits "" then none else some (value_from 0 digits)

-- `Math.floor(Number.parseInt(version))` of a version, which has no sign; `none` is `NaN`.
unfoldable pub major_version : String → Option ℕ
major_version version = value_of (leading_digits (trim_start version))

-- `${getVersion}`
abbrev pub printed : Option ℕ → String
printed none = "NaN"
printed (some n) = decimal n

-- The argument of `setGlobalPrefix`.
unfoldable pub global_prefix : String → String
global_prefix version = "api/v" & printed (major_version version)

-- `app.use(path, raw({ type }))`: the parser of raw bodies is used for requests to the path with a body of the
-- type; how a path and a type are compared is up to Express and body-parser.
pub record RawMount : Type 0 where
  pub path : String
  pub type : String

abbrev pub raw_mount : RawMount
raw_mount = record { path = "/api/v1/stripe/webhook"; type = "application/json" }

-- The path of `handleWebhook`, by the prefix and the two decorators.
unfoldable pub webhook_path : String → String
webhook_path version = "/" & global_prefix version & "/" & "stripe" & "/" & "webhook"

-- `configService.get('PORT') || 3500`
abbrev pub or_3500 : Option String → String ⊎ ℕ
or_3500 none = inr 3500
or_3500 (some text) = if str_eq text "" then inr 3500 else inl text

unfoldable pub port : ConfigService → String ⊎ ℕ
port config = or_3500 (config "PORT")

one_printed : (n : ℕ) → decimal n ≡ "1" → n ≡ 1
unfolding value_from
one_printed n same = sym (value_from-decimal n) ∙ ap (value_from 0) same

printed_one : (v : Option ℕ) → printed v ≡ "1" → v ≡ some 1
printed_one none same = absurd (ground (arith, eq_iff "NaN" "1", same))
printed_one (some n) same = ap some (one_printed n same)

-- The path of the webhook is the one of the parser exactly if the major version of the package is 1.
webhook_path-raw :
    (version : String) → (webhook_path version ≡ raw_mount.path) ↔ (major_version version ≡ some 1)
unfolding webhook_path global_prefix decimal
webhook_path-raw version = (
  λ same.
      let number = printed (major_version version) in
      let cut : number & "/stripe/webhook" ≡ "1/stripe/webhook" = append_cancel_left "/api/v" _ _ (
        append_assoc "/" "api/v" (number & "/stripe/webhook")
        ∙ ap (λ s. "/" & s) (sym (append_assoc "api/v" number "/stripe/webhook"))
        ∙ same) in
      printed_one (major_version version) (append_cancel_right _ "1" "/stripe/webhook" cut),
  λ one. rw one refl,
)
