-- ===== src/Prelude/Sorted.antt =====
-- The first rows by age: what `take` of a sorted selection has, and what it leaves out.
use mathlib.Core.List.Memᴰ
use Prim.Native.Nat.{ℕ, zero, suc, ◌≤◌}
use mathlib.Core.Path.{◌≡◌, refl, sym, ap}
use mathlib.Core.Logic.{◌≢◌, ◌⊎◌, inl, inr}
use mathlib.Core.Bool.{Bool, true}
use mathlib.Core.List.{List, [], ◌∷◌, Memᴰ}
use native.Mathlib.Omega.{arith}
use lior_paris_wallet.Prelude.Tests.{leb, Bool-cases}
use lior_paris_wallet.Prelude.Rows.{
  length, take, insert_by, sort_by, filter_in, filter_in-mem, mem-filter_in, HasUniqueKeys,
  HasUniqueKeys-filter_in,
}

module _ {ℓ} {A : Type ℓ} where
  pub mem-take : {a : A} (n : ℕ) (xs : List A) → Memᴰ a (take n xs) → Memᴰ a xs
  mem-take zero xs m = absurd (Memᴰ.not-nil m)
  mem-take (suc n) [] m = m
  mem-take (suc n) (x ∷ xs) m = elim (Memᴰ.cases_cons m) [
    | inl e ↦ Memᴰ.head e
    | inr t ↦ Memᴰ.tail (mem-take n xs t)
  ]

  pub length-take-le : (n : ℕ) (xs : List A) → length (take n xs) ≤ n
  length-take-le zero xs = omega arith
  length-take-le (suc n) [] = omega arith
  length-take-le (suc n) (x ∷ xs) = omega (arith, length-take-le n xs)

  HasUniqueKeys-take :
      {K : Type 0} (key : A → K) (n : ℕ) (xs : List A)
      → HasUniqueKeys key xs
      → HasUniqueKeys key (take n xs)
  HasUniqueKeys-take key zero xs u = tt
  HasUniqueKeys-take key (suc n) [] u = tt
  HasUniqueKeys-take key (suc n) (x ∷ xs) u =
      (λ b m. u.0 b (mem-take n xs m), HasUniqueKeys-take key n xs u.1)

  module _ (age : A → ℕ) where
    insert_by-mem :
        (a : A) {b : A} (xs : List A) → Memᴰ b (insert_by age a xs) → (b ≡ a) ⊎ Memᴰ b xs
    insert_by-mem a [] m = inl (Memᴰ.eq_of_singleton m)
    insert_by-mem a {b} (x ∷ xs) m = elim (Bool-cases (leb (age a) (age x))) [
      | inl first ↦ Memᴰ.cases_cons (rw first at m)
      | inr later ↦ elim (Memᴰ.cases_cons (rw later at m)) [
        | inl e ↦ inr (Memᴰ.head e)
        | inr t ↦ elim (insert_by-mem a xs t) [ inl e ↦ inl e | inr u ↦ inr (Memᴰ.tail u) ]
      ]
    ]

    mem-insert_by :
        (a : A) {b : A} (xs : List A) → (b ≡ a) ⊎ Memᴰ b xs → Memᴰ b (insert_by age a xs)
    mem-insert_by a [] (inl e) = Memᴰ.head e
    mem-insert_by a [] (inr m) = absurd (Memᴰ.not-nil m)
    mem-insert_by a {b} (x ∷ xs) m = elim (Bool-cases (leb (age a) (age x))) [
      | inl first ↦ rw first (elim m [ inl e ↦ Memᴰ.head e | inr t ↦ Memᴰ.tail t ])
      | inr later ↦ rw later (elim m [
        | inl e ↦ Memᴰ.tail (mem-insert_by a xs (inl e))
        | inr t ↦ elim (Memᴰ.cases_cons t) [
          | inl e ↦ Memᴰ.head e
          | inr u ↦ Memᴰ.tail (mem-insert_by a xs (inr u))
        ]
      ])
    ]

    sort_by-mem : {b : A} (xs : List A) → Memᴰ b (sort_by age xs) → Memᴰ b xs
    sort_by-mem [] m = m
    sort_by-mem (x ∷ xs) m = elim (insert_by-mem x (sort_by age xs) m) [
      | inl e ↦ Memᴰ.head e
      | inr t ↦ Memᴰ.tail (sort_by-mem xs t)
    ]

    mem-sort_by : {b : A} (xs : List A) → Memᴰ b xs → Memᴰ b (sort_by age xs)
    mem-sort_by [] m = m
    mem-sort_by (x ∷ xs) m = elim (Memᴰ.cases_cons m) [
      | inl e ↦ mem-insert_by x (sort_by age xs) (inl e)
      | inr t ↦ mem-insert_by x (sort_by age xs) (inr (mem-sort_by xs t))
    ]

    HasUniqueKeys-insert_by :
        {K : Type 0} (key : A → K) (a : A) (xs : List A)
        → HasUniqueKeys key xs
        → ((b : A) → Memᴰ b xs → key b ≢ key a)
        → HasUniqueKeys key (insert_by age a xs)
    HasUniqueKeys-insert_by key a [] u new = (λ b m. absurd (Memᴰ.not-nil m), tt)
    HasUniqueKeys-insert_by key a (x ∷ xs) u new = elim (Bool-cases (leb (age a) (age x))) [
      | inl first ↦ rw first (new, u)
      | inr later ↦ rw later (
        λ b m. elim (insert_by-mem a xs m) [
          | inl e ↦ rw e (λ q. new x (Memᴰ.head refl) (sym q))
          | inr t ↦ u.0 b t
        ],
        HasUniqueKeys-insert_by key a xs u.1 (λ b m. new b (Memᴰ.tail m)),
      )
    ]

    HasUniqueKeys-sort_by :
        {K : Type 0} (key : A → K) (xs : List A)
        → HasUniqueKeys key xs
        → HasUniqueKeys key (sort_by age xs)
    HasUniqueKeys-sort_by key [] u = tt
    HasUniqueKeys-sort_by key (x ∷ xs) u =
        HasUniqueKeys-insert_by key x (sort_by age xs) (HasUniqueKeys-sort_by key xs u.1)
          (λ b m. u.0 b (sort_by-mem xs m))

    abbrev IsSorted : List A → Type ℓ
    IsSorted [] = Unit
    IsSorted (x ∷ xs) = ((b : A) → Memᴰ b xs → age x ≤ age b) × IsSorted xs

    insert_by-IsSorted : (a : A) (xs : List A) → IsSorted xs → IsSorted (insert_by age a xs)
    insert_by-IsSorted a [] s = (λ b m. absurd (Memᴰ.not-nil m), tt)
    insert_by-IsSorted a (x ∷ xs) s = elim (Bool-cases (leb (age a) (age x))) [
      | inl first ↦ rw first (
        λ b m. elim (Memᴰ.cases_cons m) [
          | inl e ↦ rw e (ground (arith, first))
          | inr t ↦ let le = s.0 b t in ground (arith, first, le)
        ],
        s,
      )
      | inr later ↦ rw later (
        λ b m. elim (insert_by-mem a xs m) [
          | inl e ↦ rw e (ground (arith, later))
          | inr t ↦ s.0 b t
        ],
        insert_by-IsSorted a xs s.1,
      )
    ]

    sort_by-IsSorted : (xs : List A) → IsSorted (sort_by age xs)
    sort_by-IsSorted [] = tt
    sort_by-IsSorted (x ∷ xs) = insert_by-IsSorted x (sort_by age xs) (sort_by-IsSorted xs)

    -- A row of a sorted list is among its first rows, or those are as many as wanted and no younger.
    mem-take_or_older :
        {a : A} (n : ℕ) (xs : List A)
        → IsSorted xs
        → Memᴰ a xs
        → Memᴰ a (take n xs)
          ⊎ ((length (take n xs) ≡ n) × ((b : A) → Memᴰ b (take n xs) → age b ≤ age a))
    mem-take_or_older zero xs s m = inr (refl, λ b k. absurd (Memᴰ.not-nil k))
    mem-take_or_older (suc n) [] s m = absurd (Memᴰ.not-nil m)
    mem-take_or_older {a} (suc n) (x ∷ xs) s m = elim (Memᴰ.cases_cons m) [
      | inl e ↦ inl (Memᴰ.head e)
      | inr t ↦ elim (mem-take_or_older n xs s.1 t) [
        | inl early ↦ inl (Memᴰ.tail early)
        | inr (full, older) ↦ inr (
          ap suc full,
          λ b k. elim (Memᴰ.cases_cons k) [ inl e ↦ rw e (s.0 a t) | inr u ↦ older b u ],
        )
      ]
    ]

  module _ (p : A → Bool) (age : A → ℕ) (n : ℕ) (rows : List A) where
    abbrev pub first_by : List A
    first_by = take n (sort_by age (filter_in p rows))

    pub first_by-mem : {r : A} → Memᴰ r first_by → Memᴰ r rows × (p r ≡ true)
    first_by-mem m =
        filter_in-mem p rows
          (sort_by-mem age (filter_in p rows) (mem-take n (sort_by age (filter_in p rows)) m))

    pub first_by_complete :
        {r : A}
        → Memᴰ r rows
        → p r ≡ true
        → Memᴰ r first_by ⊎ ((length first_by ≡ n) × ((s : A) → Memᴰ s first_by → age s ≤ age r))
    first_by_complete m fits =
        mem-take_or_older age n (sort_by age (filter_in p rows))
          (sort_by-IsSorted age (filter_in p rows))
          (mem-sort_by age (filter_in p rows) (mem-filter_in p rows m fits))

    pub first_by-keys :
        {K : Type 0} (key : A → K) → HasUniqueKeys key rows → HasUniqueKeys key first_by
    first_by-keys key u =
        HasUniqueKeys-take key n (sort_by age (filter_in p rows))
          (HasUniqueKeys-sort_by age key (filter_in p rows) (HasUniqueKeys-filter_in key p rows u))
