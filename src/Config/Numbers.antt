-- ===== src/Config/Numbers.antt =====
-- What `getNumber` reads (src/shared/config/config.utils.ts).
use Prim.Native.String.{[], ◌∷◌}
use lior_paris_wallet.Prelude.{
  ℕ, suc, ◌≡◌, refl, sym, ap, ◌∙◌, String, true, inl, inr, some, str_eq, eq_iff, Bool-cases, arith,
}
use lior_paris_wallet.Prelude.Texts.{decimal, trim, trim_start, trim_end, with_first}
use lior_paris_wallet.Prelude.Digits.{read-digits_to}
use lior_paris_wallet.Config.{
  ConfigService, JsNumber, natural, all_digits, value_from, number_of_text, to_number, get_number,
}

-- A text of digits has no blanks.
trim_start-digits : (s : String) → all_digits s ≡ true → trim_start s ≡ s
unfolding all_digits
trim_start-digits [] h = refl
trim_start-digits (c ∷ s) h = ground arith

trim_end-digits : (s : String) → all_digits s ≡ true → trim_end s ≡ s
unfolding all_digits
trim_end-digits [] h = refl
trim_end-digits (c ∷ []) h = ground arith
trim_end-digits (c ∷ d ∷ s) h =
    let rest = trim_end-digits (d ∷ s) (ground arith) in ap (with_first c) rest

trim-digits : (s : String) → all_digits s ≡ true → trim s ≡ s
unfolding trim
trim-digits s h = ap trim_end (trim_start-digits s h) ∙ trim_end-digits s h

all_digits-decimal : (n : ℕ) → all_digits (decimal n) ≡ true
unfolding decimal all_digits
all_digits-decimal n =
    read-digits_to (λ m s. all_digits s) (λ m d c s h is. ground arith) (suc n) n "" (omega arith)

pub value_from-decimal : (n : ℕ) → value_from 0 (decimal n) ≡ n
unfolding decimal value_from
value_from-decimal n =
    read-digits_to value_from (λ m d c s h is. ground arith) (suc n) n "" (omega arith)

-- A variable that is a number in decimal digits is read as that number.
get_number-decimal :
    (other : String → JsNumber) (config : ConfigService) (key : String) (fallback n : ℕ)
    → config key ≡ some (decimal n)
    → get_number other config key fallback ≡ natural n
unfolding get_number to_number number_of_text value_from
get_number-decimal other config key fallback n set =
    let same = trim-digits (decimal n) (all_digits-decimal n) in
    let digits = all_digits-decimal n in
    let value = value_from-decimal n in
    elim (Bool-cases (str_eq (decimal n) "")) [
      | inl empty ↦
          let none_left : decimal n ≡ "" = (eq_iff (decimal n) "").0 empty in
          let zero_read : n ≡ 0 = sym value ∙ ap (value_from 0) none_left in
          rw (set, same, empty, zero_read) refl
      | inr full ↦ rw (set, same, full, digits, value) refl
    ]

-- A variable that is set and blank is read as zero, whatever the fallback.
get_number-blank :
    (other : String → JsNumber) (config : ConfigService) (key raw : String) (fallback : ℕ)
    → config key ≡ some raw
    → trim raw ≡ ""
    → get_number other config key fallback ≡ natural 0
unfolding get_number to_number number_of_text
get_number-blank other config key raw fallback set blank = rw (set, blank) refl
