-- ===== src/Prelude/Digits.antt =====
-- The characters of decimal digits.
use Prim.Native.Char.{Char, code}
use Prim.Native.String.{String, [], ◌∷◌, ◌++◌}
use text.Mathlib.TextLemmas.{cons-append, nil-append}
use mathlib.Core.Path.{◌≡◌, refl, ◌∙◌, ap}
use native.Mathlib.Omega.{arith}
use Prim.Native.Nat.{ℕ, zero, suc, ◌+◌, ◌*◌, ◌/◌, ◌%◌, ◌≤◌, ◌<◌}
use mathlib.Core.Logic.{inl, inr}
use lior_paris_wallet.Prelude.Tests.{leb, Bool-cases}
use lior_paris_wallet.Prelude.Texts.{digit, digits_to}

-- A digit is one character, whose code says which.
abbrev pub IsDigitChar : ℕ → Type 0
IsDigitChar d = (c : Char) × (code c ≡ 48 + d) × ((s : String) → digit d ++ s ≡ c ∷ s)

one_char : (c : Char) (s : String) → (c ∷ []) ++ s ≡ c ∷ s
one_char c s = cons-append c [] s ∙ ap (λ t. c ∷ t) (nil-append s)

pub digit_char : (d : ℕ) → d ≤ 9 → IsDigitChar d
digit_char zero h = (_, refl, one_char _)
digit_char (suc zero) h = (_, refl, one_char _)
digit_char (suc (suc zero)) h = (_, refl, one_char _)
digit_char (suc (suc (suc zero))) h = (_, refl, one_char _)
digit_char (suc (suc (suc (suc zero)))) h = (_, refl, one_char _)
digit_char (suc (suc (suc (suc (suc zero))))) h = (_, refl, one_char _)
digit_char (suc (suc (suc (suc (suc (suc zero)))))) h = (_, refl, one_char _)
digit_char (suc (suc (suc (suc (suc (suc (suc zero))))))) h = (_, refl, one_char _)
digit_char (suc (suc (suc (suc (suc (suc (suc (suc zero)))))))) h = (_, refl, one_char _)
digit_char (suc (suc (suc (suc (suc (suc (suc (suc (suc zero))))))))) h = (_, refl, one_char _)
digit_char (suc (suc (suc (suc (suc (suc (suc (suc (suc (suc d)))))))))) h = absurd (omega arith)

-- What takes in a text digit by digit, in decimal places, comes to the number that was printed.
module _ {R : Type 0} (read : ℕ → String → R)
    (next : (n d : ℕ) (c : Char) (s : String)
      → d ≤ 9
      → code c ≡ 48 + d
      → read n (c ∷ s) ≡ read (n * 10 + d) s) where
  pub read-digit : (n d : ℕ) (s : String) → d ≤ 9 → read n (digit d ++ s) ≡ read (n * 10 + d) s
  read-digit n d s h = let (c, is, text) = digit_char d h in rw (text s) (next n d c s h is)

  pub read-digits_to : (fuel n : ℕ) (s : String) → n < fuel → read 0 (digits_to fuel n s) ≡ read n s
  unfolding digits_to
  read-digits_to zero n s h = absurd (omega arith)
  read-digits_to (suc fuel) n s h = elim (Bool-cases (leb n 9)) [
    | inl last ↦
        let one : digits_to (suc fuel) n s ≡ digit n ++ s = ground arith in
        let start : 0 * 10 + n ≡ n = omega arith in
        rw one (read-digit 0 n s (ground arith) ∙ ap (λ m. read m s) start)
    | inr more ↦
        let rest : digits_to (suc fuel) n s ≡ digits_to fuel (n / 10) (digit (n % 10) ++ s) =
          ground arith in
        let whole : n / 10 * 10 + n % 10 ≡ n = omega arith in
        rw rest (
          read-digits_to fuel (n / 10) (digit (n % 10) ++ s) (ground arith)
          ∙ read-digit (n / 10) (n % 10) s (omega arith)
          ∙ ap (λ m. read m s) whole)
  ]
