-- ===== src/Prelude/Keys.antt =====
-- Rows with pairwise different keys, and updates of the row with a given key.
use Prim.Native.Nat.{ℕ}
use mathlib.Core.Path.{◌≡◌, refl, sym, ◌∙◌, subst}
use mathlib.Core.Logic.{◌≢◌, inl, inr}
use mathlib.Core.Bool.{Bool}
use mathlib.Core.List.{List, [], ◌∷◌, ◌++◌, Memᴰ}
use mathlib.Core.List.Memᴰ
use native.Mathlib.Omega.{arith}
use lior_paris_wallet.Prelude.Tests.{◌==◌, Bool-cases, ==_iff}
use lior_paris_wallet.Prelude.Int.{ℤ, ◌+ℤ◌, int_laws}
use lior_paris_wallet.Prelude.Rows.{HasUniqueKeys, set_where, sum_of, mem-snoc, set_where-mem}

module _ {ℓ} {A : Type ℓ} {K : Type 0} (key : A → K) where
  -- Two rows with one key are one row.
  pub eq_of_key :
      {a b : A} (xs : List A) → HasUniqueKeys key xs → Memᴰ a xs → Memᴰ b xs → key a ≡ key b → a ≡ b
  eq_of_key [] u m n e = absurd (Memᴰ.not-nil m)
  eq_of_key {a} {b} (x ∷ xs) u m n e = elim (Memᴰ.cases_cons m) [
    | inl p ↦ elim (Memᴰ.cases_cons n) [ inl q ↦ p ∙ sym q | inr t ↦ absurd (u.0 b t (cc)) ]
    | inr s ↦ elim (Memᴰ.cases_cons n) [
      | inl q ↦ absurd (u.0 a s (cc))
      | inr t ↦ eq_of_key xs u.1 s t e
    ]
  ]

  pub HasUniqueKeys-snoc :
      (xs : List A) (a : A)
      → HasUniqueKeys key xs
      → ((b : A) → Memᴰ b xs → key b ≢ key a)
      → HasUniqueKeys key (xs ++ a ∷ [])
  HasUniqueKeys-snoc [] a u new = (λ b m. absurd (Memᴰ.not-nil m), tt)
  HasUniqueKeys-snoc (x ∷ xs) a u new = (
    λ b m. elim (mem-snoc xs m) [
      | inl old ↦ u.0 b old
      | inr e ↦ λ q. new x (Memᴰ.head refl) (sym (cc))
    ],
    HasUniqueKeys-snoc xs a u.1 (λ b m. new b (Memᴰ.tail m)),
  )

module _ {ℓ} {A : Type ℓ} (key : A → ℕ) where
  -- An update that keeps the keys keeps them different.
  pub HasUniqueKeys-set_where :
      (p : A → Bool) (f : A → A) (xs : List A)
      → ((a : A) → key (f a) ≡ key a)
      → HasUniqueKeys key xs
      → HasUniqueKeys key (set_where p f xs)
  HasUniqueKeys-set_where p f [] same u = tt
  HasUniqueKeys-set_where p f (x ∷ xs) same u = (
    λ b m.
        let (a, n, e) = set_where-mem p f xs m in
        let before = u.0 a n in rw e (ground (arith, same a, same x)),
    HasUniqueKeys-set_where p f xs same u.1,
  )

  pub set_where_absent :
      (k : ℕ) (f : A → A) (xs : List A)
      → ((b : A) → Memᴰ b xs → key b ≢ k)
      → set_where (λ r. key r == k) f xs ≡ xs
  set_where_absent k f [] no_key = refl
  set_where_absent k f (x ∷ xs) no_key =
      ground
        (arith, set_where_absent k f xs (λ b m. no_key b (Memᴰ.tail m)), no_key x (Memᴰ.head refl))

  sum_of-set_where_head :
      (measure : A → ℤ) (f : A → A) (x : A) (xs : List A)
      → ((b : A) → Memᴰ b xs → key b ≢ key x)
      → sum_of measure (set_where (λ r. key r == key x) f (x ∷ xs)) +ℤ measure x
        ≡ sum_of measure (x ∷ xs) +ℤ measure (f x)
  sum_of-set_where_head measure f x xs fresh =
      rw ((==_iff (key x) (key x)).1 refl, set_where_absent (key x) f xs fresh) (omega int_laws)

  -- Updating the row `a` moves the sum by what `a` itself moves.
  pub sum_of-set_where :
      (measure : A → ℤ) (f : A → A) {a : A} (xs : List A)
      → HasUniqueKeys key xs
      → Memᴰ a xs
      → sum_of measure (set_where (λ r. key r == key a) f xs) +ℤ measure a
        ≡ sum_of measure xs +ℤ measure (f a)
  sum_of-set_where measure f [] u m = absurd (Memᴰ.not-nil m)
  sum_of-set_where measure f {a} (x ∷ xs) u m = elim (Memᴰ.cases_cons m) [
    | inl e ↦
        subst
          (λ v.
            sum_of measure (set_where (λ r. key r == key v) f (x ∷ xs)) +ℤ measure v
            ≡ sum_of measure (x ∷ xs) +ℤ measure (f v))
          (sym e) (sum_of-set_where_head measure f x xs u.0)
    | inr t ↦ elim (Bool-cases (key x == key a)) [
      | inl same ↦ absurd (u.0 a t (ground (arith, same)))
      | inr other ↦ rw other (grind (int_laws, sum_of-set_where measure f xs u.1 t))
    ]
  ]
