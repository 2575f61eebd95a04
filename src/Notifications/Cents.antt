-- ===== src/Notifications/Cents.antt =====
-- Up to which amount the double of an amount's hundredth part still tells its cents
-- (src/shared/utils/format-currency.ts).
use Prim.Native.Nat.{◌/◌}
use native.Mathlib.Nat.{le-div_iff_mul-le, div-lt_iff_lt-mul}
use lior_paris_wallet.Prelude.{
  ℕ, zero, suc, ◌+◌, ◌*◌, ◌≤◌, ◌<◌, ◌≡◌, ◌==◌, false, true, inl, inr, Bool-cases, ltb, arith,
}
use lior_paris_wallet.Notifications.Currency.{
  power_of_two, places_from, places, mantissa, hundredths,
}

power_of_two-pos : (k : ℕ) → 1 ≤ power_of_two k
unfolding power_of_two
power_of_two-pos zero = omega arith
power_of_two-pos (suc k) = let h = power_of_two-pos k in omega arith

-- Seven places are 128 parts.
power_of_two-le : (k : ℕ) → 7 ≤ k → 128 ≤ power_of_two k
unfolding power_of_two
power_of_two-le zero h = absurd (omega arith)
power_of_two-le (suc k) h = elim (Bool-cases (k == 6)) [
  | inl six ↦ let e : k ≡ 6 = ground (arith, six) in rw e (omega arith)
  | inr more ↦ let rest = power_of_two-le k (ground (arith, more, h)) in omega (arith, rest)
]

seven_fit :
    (cents : ℕ) → cents < 7036874417766400 → ltb (cents * power_of_two 7) 900719925474099200 ≡ true
unfolding power_of_two
seven_fit cents small = ground arith

-- Where seven places are few enough, there are at least seven.
places_from-le :
    (k cents : ℕ) → 7 ≤ k → cents < 7036874417766400 → 128 ≤ power_of_two (places_from k cents)
unfolding places_from
places_from-le zero cents h small = absurd (omega arith)
places_from-le (suc k) cents h small =
    elim (Bool-cases (ltb (cents * power_of_two (suc k)) 900719925474099200)) [
      | inl more ↦ rw more (power_of_two-le (suc k) h)
      | inr enough ↦ elim (Bool-cases (k == 6)) [
        | inl six ↦
            let e : k ≡ 6 = ground (arith, six) in
            let c : ltb (cents * power_of_two 7) 900719925474099200 ≡ false = rw e at enough in
            let fit = seven_fit cents small in absurd (ground (arith, c, fit))
        | inr larger ↦ rw enough (places_from-le k cents (ground (arith, larger, h)) small)
      ]
    ]

quotient_is : (c d n : ℕ) → 1 ≤ d → c * d ≤ n → n < suc c * d → n / d ≡ c
quotient_is c d n some_d low high =
    let a = (le-div_iff_mul-le {k = d} {x = c} {y = n} (omega arith)).1 low in
    let b = (div-lt_iff_lt-mul {k = d} {x = n} {y = suc c} (omega arith)).1 high in omega arith

-- With 128 parts or more, the double is nearer to its own cents than to any other.
nearest : (cents p : ℕ) → 128 ≤ p → (200 * ((cents * p + 50) / 100) + p) / (2 * p) ≡ cents
nearest cents p fine =
    let m = (cents * p + 50) / 100 in
    quotient_is cents (2 * p) (200 * m + p) (omega arith) (grind arith) (grind arith)

-- Below 2^46 units, no cent is lost.
pub hundredths_lem : (cents : ℕ) → cents < 7036874417766400 → hundredths cents ≡ cents
unfolding hundredths mantissa places
hundredths_lem cents small =
    nearest cents (power_of_two (places_from 59 cents))
      (places_from-le 59 cents (omega arith) small)
