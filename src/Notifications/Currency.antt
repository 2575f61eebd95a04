-- ===== src/Notifications/Currency.antt =====
-- src/shared/utils/format-currency.ts. An amount is an integer below 2^53 in size, as JavaScript's numbers hold
-- exactly, or a text that reads as one. The quotient is a double, with its rounding written out.
use Prim.Native.Nat.{◌/◌, ◌%◌}
use Prim.Native.String.{◌++◌ as ◌&◌}
use lior_paris_wallet.Prelude.{ℕ, zero, suc, ◌+◌, ◌*◌, String, ltb, if◌then◌else◌}
use lior_paris_wallet.Prelude.Int.{ℤ, pos, negsuc}
use lior_paris_wallet.Prelude.Texts.{digit, decimal, to_upper_case, trim}

unfoldable pub power_of_two : ℕ → ℕ
power_of_two zero = 1
power_of_two (suc k) = 2 * power_of_two k

-- The binary places that the double of `cents / 100` has behind the point: the most, up to `k`, with which its
-- 53 bits are enough, so the most for which `cents / 100 * 2^places` is below 2^53. For one cent it is 59.
unfoldable pub places_from : (k cents : ℕ) → ℕ
places_from zero cents = 0
places_from (suc k) cents =
    let fewer = places_from k cents in
    if ltb (cents * power_of_two (suc k)) 900719925474099200 then suc k else fewer

unfoldable pub places : ℕ → ℕ
places cents = places_from 59 cents

-- The double nearest to `cents / 100`, times 2^places. Below 2^53 cents there are six places or more, and
-- `cents * 2^6` is no odd multiple of 50, so there is no tie.
unfoldable pub mantissa : ℕ → ℕ
unfolding places power_of_two
mantissa cents = (cents * power_of_two (places cents) + 50) / 100

-- The hundredths of `toFixed(2)`: the whole number nearest to a hundred times the double, the larger of two.
unfoldable pub hundredths : ℕ → ℕ
unfolding mantissa places power_of_two
hundredths cents =
    (200 * mantissa cents + power_of_two (places cents)) / (2 * power_of_two (places cents))

-- `(cents / 100).toFixed(2)` of an amount that is not negative
unfoldable pub to_fixed : ℕ → String
unfolding hundredths
to_fixed cents =
    let n = hundredths cents in decimal (n / 100) & "." & digit (n % 100 / 10) & digit (n % 10)

-- `(cents / 100).toFixed(2)`
unfoldable pub major : ℤ → String
unfolding to_fixed
major (pos cents) = to_fixed cents
major (negsuc n) = "-" & to_fixed (suc n)

unfoldable pub format_currency : ℤ → String → String
format_currency amount_in_cents currency =
    trim (major amount_in_cents & " " & to_upper_case currency)
