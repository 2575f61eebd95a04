-- ===== src/Prelude/Rows.antt =====
-- Lists as the rows of a table: membership, updates of the rows that fit a test, and sums.
use Prim.Native.Nat.{ℕ, zero, suc}
use mathlib.Core.Path.{◌≡◌, refl}
use mathlib.Core.Logic.{◌≢◌, ◌⊎◌, inl, inr}
use mathlib.Core.Bool.{Bool, true, false, ◌||◌}
use mathlib.Core.List.{List, [], ◌∷◌, ◌++◌, Memᴰ}
use mathlib.Core.List.Memᴰ
use native.Mathlib.Omega.{arith}
use lior_paris_wallet.Prelude.Tests.{leb, Bool-cases, if◌then◌else◌}
use lior_paris_wallet.Prelude.Int.{ℤ, pos, ◌+ℤ◌, int_laws}

module _ {ℓ} {A : Type ℓ} where
  abbrev pub length : List A → ℕ
  length [] = 0
  length (x ∷ xs) = suc (length xs)

  abbrev pub take : ℕ → List A → List A
  take zero xs = []
  take (suc n) [] = []
  take (suc n) (x ∷ xs) = x ∷ take n xs

  abbrev pub drop : ℕ → List A → List A
  drop zero xs = xs
  drop (suc n) [] = []
  drop (suc n) (x ∷ xs) = drop n xs

  -- Stable insertion by a number, the least first.
  abbrev pub insert_by : (A → ℕ) → A → List A → List A
  insert_by age a [] = a ∷ []
  insert_by age a (x ∷ xs) = if leb (age a) (age x) then a ∷ x ∷ xs else x ∷ insert_by age a xs

  abbrev pub sort_by : (A → ℕ) → List A → List A
  sort_by age [] = []
  sort_by age (x ∷ xs) = insert_by age x (sort_by age xs)

  abbrev pub any : (A → Bool) → List A → Bool
  any p [] = false
  any p (x ∷ xs) = p x || any p xs

  -- The rows that pass the test are changed, the others stay.
  abbrev pub set_where : (A → Bool) → (A → A) → List A → List A
  set_where p f [] = []
  set_where p f (x ∷ xs) = (if p x then f x else x) ∷ set_where p f xs

  abbrev pub filter_out : (A → Bool) → List A → List A
  filter_out p [] = []
  filter_out p (x ∷ xs) = if p x then filter_out p xs else x ∷ filter_out p xs

  -- Opposite of `filter_out`.
  abbrev pub filter_in : (A → Bool) → List A → List A
  filter_in p [] = []
  filter_in p (x ∷ xs) = if p x then x ∷ filter_in p xs else filter_in p xs

  pub filter_in-mem :
      (p : A → Bool) {a : A} (xs : List A) → Memᴰ a (filter_in p xs) → Memᴰ a xs × (p a ≡ true)
  filter_in-mem p [] m = absurd (Memᴰ.not-nil m)
  filter_in-mem p {a} (x ∷ xs) m = elim (Bool-cases (p x)) [
    | inr out ↦ let (n, h) = filter_in-mem p xs (rw out at m) in (Memᴰ.tail n, h)
    | inl stays ↦ elim (Memᴰ.cases_cons (rw stays at m)) [
      | inl e ↦ (Memᴰ.head e, rw e stays)
      | inr t ↦ let (n, h) = filter_in-mem p xs t in (Memᴰ.tail n, h)
    ]
  ]

  pub mem-filter_in :
      (p : A → Bool) {a : A} (xs : List A) → Memᴰ a xs → p a ≡ true → Memᴰ a (filter_in p xs)
  mem-filter_in p [] m h = m
  mem-filter_in p {a} (x ∷ xs) m h = elim (Memᴰ.cases_cons m) [
    | inl e ↦ let here : p x ≡ true = rw (← e) h in rw here (Memᴰ.head e)
    | inr t ↦ elim (Bool-cases (p x)) [
      | inl stays ↦ rw stays (Memᴰ.tail (mem-filter_in p xs t h))
      | inr out ↦ rw out (mem-filter_in p xs t h)
    ]
  ]

  pub filter_out-mem :
      (p : A → Bool) {a : A} (xs : List A) → Memᴰ a (filter_out p xs) → Memᴰ a xs × (p a ≡ false)
  filter_out-mem p [] m = absurd (Memᴰ.not-nil m)
  filter_out-mem p {a} (x ∷ xs) m = elim (Bool-cases (p x)) [
    | inl out ↦ let (n, h) = filter_out-mem p xs (rw out at m) in (Memᴰ.tail n, h)
    | inr stays ↦ elim (Memᴰ.cases_cons (rw stays at m)) [
      | inl e ↦ (Memᴰ.head e, rw e stays)
      | inr t ↦ let (n, h) = filter_out-mem p xs t in (Memᴰ.tail n, h)
    ]
  ]

  pub any-false : (p : A → Bool) {a : A} (xs : List A) → any p xs ≡ false → Memᴰ a xs → p a ≡ false
  any-false p [] h m = absurd (Memᴰ.not-nil m)
  any-false p {a} (x ∷ xs) h m = elim (Memᴰ.cases_cons m) [
    | inl e ↦ rw e (ground arith)
    | inr t ↦ any-false p xs (ground arith) t
  ]

  -- Every row after an update stands for one before it.
  pub set_where-mem :
      (p : A → Bool) (f : A → A) {b : A} (xs : List A)
      → Memᴰ b (set_where p f xs)
      → (a : A) × Memᴰ a xs × (b ≡ (if p a then f a else a))
  set_where-mem p f [] m = absurd (Memᴰ.not-nil m)
  set_where-mem p f (x ∷ xs) m = elim (Memᴰ.cases_cons m) [
    | inl e ↦ (x, Memᴰ.head refl, e)
    | inr t ↦ let (a, n, e) = set_where-mem p f xs t in (a, Memᴰ.tail n, e)
  ]

  -- A row before an update is still there, changed if the test says so.
  pub mem-set_where :
      (p : A → Bool) (f : A → A) {a : A} (xs : List A)
      → Memᴰ a xs
      → Memᴰ (if p a then f a else a) (set_where p f xs)
  mem-set_where p f [] m = absurd (Memᴰ.not-nil m)
  mem-set_where p f (x ∷ xs) m = elim (Memᴰ.cases_cons m) [
    | inl e ↦ Memᴰ.head (rw e refl)
    | inr t ↦ Memᴰ.tail (mem-set_where p f xs t)
  ]

  pub mem-snoc : {a : A} (xs : List A) {b : A} → Memᴰ a (xs ++ b ∷ []) → Memᴰ a xs ⊎ (a ≡ b)
  mem-snoc xs m = elim (Memᴰ.append_cases xs m) [
    | inl old ↦ inl old
    | inr last ↦ inr (Memᴰ.eq_of_singleton last)
  ]

  abbrev pub sum_of : (A → ℤ) → List A → ℤ
  sum_of f [] = pos 0
  sum_of f (x ∷ xs) = f x +ℤ sum_of f xs

  pub sum_of-snoc : (f : A → ℤ) (xs : List A) (a : A) → sum_of f (xs ++ a ∷ []) ≡ sum_of f xs +ℤ f a
  sum_of-snoc f [] a = omega int_laws
  sum_of-snoc f (x ∷ xs) a = rw (sum_of-snoc f xs a) (omega int_laws)

  -- The rows have pairwise different keys.
  abbrev pub HasUniqueKeys : {K : Type 0} → (A → K) → List A → Type ℓ
  HasUniqueKeys key [] = Unit
  HasUniqueKeys key (x ∷ xs) = ((b : A) → Memᴰ b xs → key b ≢ key x) × HasUniqueKeys key xs

  pub HasUniqueKeys-filter_in :
      {K : Type 0} (key : A → K) (p : A → Bool) (xs : List A)
      → HasUniqueKeys key xs
      → HasUniqueKeys key (filter_in p xs)
  HasUniqueKeys-filter_in key p [] u = tt
  HasUniqueKeys-filter_in key p (x ∷ xs) u = elim (Bool-cases (p x)) [
    | inl stays ↦
        rw stays (λ b m. u.0 b (filter_in-mem p xs m).0, HasUniqueKeys-filter_in key p xs u.1)
    | inr out ↦ rw out (HasUniqueKeys-filter_in key p xs u.1)
  ]
