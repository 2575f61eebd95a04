-- ===== src/Notifications/Amounts.antt =====
-- What a formatted amount says (src/shared/utils/format-currency.ts).
use Prim.Native.Nat.{◌/◌, ◌%◌}
use Prim.Native.Char.{Char, code}
use Prim.Native.String.{String, [], ◌∷◌, ◌++◌}
use text.Mathlib.TextLemmas.{cons-append, nil-append, append_assoc}
use lior_paris_wallet.Prelude.{
  ℕ, zero, suc, ◌+◌, ◌-◌, ◌*◌, ◌≤◌, ◌<◌, ◌≡◌, refl, ap, ◌∙◌, false, Bool-cases, inl, inr, leb, ◌==◌,
  if◌then◌else◌, arith,
}
use lior_paris_wallet.Prelude.Int.{pos}
use lior_paris_wallet.Prelude.Texts.{
  digit, digits_to, decimal, trim, trim_start, trim_end, with_first, is_blank, to_upper_case,
}
use lior_paris_wallet.Prelude.Digits.{digit_char, read-digit, read-digits_to}
use lior_paris_wallet.Notifications.Cents.{hundredths_lem}
use lior_paris_wallet.Notifications.Currency.{format_currency, major, to_fixed}

-- An amount as one reads it: the digits up to the first space, with a point among them.
abbrev pub read_from : String → ℕ → ℕ
read_from [] n = n
read_from (c ∷ s) n =
    if code c == 32
    then n
    else if leb 48 (code c)
    then read_from s (n * 10 + (code c - 48))
    else read_from s n

abbrev pub read_cents : String → ℕ
read_cents s = read_from s 0

-- A text of one character, before another.
read_char : (c : Char) (n : ℕ) (s : String) → read_from ((c ∷ []) ++ s) n ≡ read_from (c ∷ s) n
read_char c n s = rw (cons-append c [] s, nil-append s) refl

next_digit :
    (n d : ℕ) (c : Char) (s : String)
    → d ≤ 9
    → code c ≡ 48 + d
    → read_from (c ∷ s) n ≡ read_from s (n * 10 + d)
next_digit n d c s h is = ground arith

read_digit : (d n : ℕ) (s : String) → d ≤ 9 → read_from (digit d ++ s) n ≡ read_from s (n * 10 + d)
read_digit d n s h = read-digit (λ n s. read_from s n) next_digit n d s h

read_point : (n : ℕ) (s : String) → read_from ("." ++ s) n ≡ read_from s n
read_point n s = read_char _ n s

read_space : (n : ℕ) (s : String) → read_from (" " ++ s) n ≡ n
read_space n s = read_char _ n s

digits-append : (fuel n : ℕ) (s t : String) → digits_to fuel n s ++ t ≡ digits_to fuel n (s ++ t)
unfolding digits_to
digits-append zero n s t = refl
digits-append (suc fuel) n s t = elim (Bool-cases (leb n 9)) [
  | inl last ↦
      let one : (s' : String) → digits_to (suc fuel) n s' ≡ digit n ++ s' = λ s'. ground arith in
      rw (one s, one (s ++ t)) (append_assoc (digit n) s t)
  | inr more ↦
      let rest : (s' : String)
          → digits_to (suc fuel) n s' ≡ digits_to fuel (n / 10) (digit (n % 10) ++ s') =
        λ s'. ground arith in
      rw (rest s, rest (s ++ t))
        (digits-append fuel (n / 10) (digit (n % 10) ++ s) t
          ∙ ap (digits_to fuel (n / 10)) (append_assoc (digit (n % 10)) s t))
]

-- The blanks that are trimmed at the end are not read.
read-with_first :
    (c : Char) (s : String) (n : ℕ) → read_from (with_first c s) n ≡ read_from (c ∷ s) n
read-with_first c [] n = elim (Bool-cases (is_blank c)) [
  | inl blank ↦ let gone : with_first c [] ≡ [] = ground arith in rw gone (ground arith)
  | inr kept ↦ let stays : with_first c [] ≡ c ∷ [] = ground arith in rw stays refl
]
read-with_first c (d ∷ s) n = refl

read-trim_end : (s : String) (n : ℕ) → read_from (trim_end s) n ≡ read_from s n
read-trim_end [] n = refl
read-trim_end (c ∷ s) n =
    read-with_first c (trim_end s) n
    ∙ rw (read-trim_end s n, read-trim_end s (n * 10 + (code c - 48))) refl

-- A text that starts with a digit is not trimmed at the start.
start_digit : (d : ℕ) (s : String) → d ≤ 9 → trim_start (digit d ++ s) ≡ digit d ++ s
start_digit d s h =
    let (c, is, text) = digit_char d h in
    let full : is_blank c ≡ false = ground arith in rw (text s) (ground arith)

start_digits :
    (fuel n : ℕ) (s : String) → n < fuel → trim_start (digits_to fuel n s) ≡ digits_to fuel n s
unfolding digits_to
start_digits zero n s h = absurd (omega arith)
start_digits (suc fuel) n s h = elim (Bool-cases (leb n 9)) [
  | inl last ↦
      let one : digits_to (suc fuel) n s ≡ digit n ++ s = ground arith in
      rw one (start_digit n s (ground arith))
  | inr more ↦
      let rest : digits_to (suc fuel) n s ≡ digits_to fuel (n / 10) (digit (n % 10) ++ s) =
        ground arith in
      rw rest (start_digits fuel (n / 10) (digit (n % 10) ++ s) (ground arith))
]

-- The cents, and the space that ends them.
read_tail :
    (units a b : ℕ) (rest : String)
    → a ≤ 9
    → b ≤ 9
    → read_from (("." ++ digit a ++ digit b) ++ " " ++ rest) units ≡ (units * 10 + a) * 10 + b
read_tail units a b rest small_a small_b =
    rw
      (
        append_assoc "." (digit a ++ digit b) (" " ++ rest),
        append_assoc (digit a) (digit b) (" " ++ rest),
      )
      (read_point units (digit a ++ digit b ++ " " ++ rest)
        ∙ read_digit a units (digit b ++ " " ++ rest) small_a
        ∙ read_digit b (units * 10 + a) (" " ++ rest) small_b
        ∙ read_space ((units * 10 + a) * 10 + b) rest)

-- A formatted amount below 2^46 units, a hundred cents each, that is not negative, read back, is the amount,
-- whatever the currency's text: no cent is lost.
pub read_cents-format_currency :
    (n : ℕ) (currency : String)
    → n < 7036874417766400
    → read_cents (format_currency (pos n) currency) ≡ n
unfolding format_currency major to_fixed decimal trim
read_cents-format_currency n currency small =
    let units = n / 100 in
    let rest = to_upper_case currency in
    let cents = "." ++ digit (n % 100 / 10) ++ digit (n % 10) in
    let fixed : to_fixed n ≡ decimal units ++ cents = rw (hundredths_lem n small) refl in
    let text : to_fixed n ++ " " ++ rest ≡ digits_to (suc units) units (cents ++ " " ++ rest) =
      rw fixed (
        append_assoc (decimal units) cents (" " ++ rest)
        ∙ digits-append (suc units) units "" (cents ++ " " ++ rest)
        ∙ ap (digits_to (suc units) units) (nil-append (cents ++ " " ++ rest))) in
    let start = start_digits (suc units) units (cents ++ " " ++ rest) (omega arith) in
    let all : (units * 10 + n % 100 / 10) * 10 + n % 10 ≡ n = omega arith in
    ap (λ t. read_cents (trim_end (trim_start t))) text
    ∙ ap (λ t. read_cents (trim_end t)) start
    ∙ read-trim_end (digits_to (suc units) units (cents ++ " " ++ rest)) 0
    ∙ read-digits_to (λ n s. read_from s n) next_digit (suc units) units (cents ++ " " ++ rest)
        (omega arith)
    ∙ read_tail units (n % 100 / 10) (n % 10) rest (omega arith) (omega arith)
    ∙ all
