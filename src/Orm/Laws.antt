-- ===== src/Orm/Laws.antt =====
-- What follows from the assumed behaviour of the tables, in the form that the components use.
use lior_paris_wallet.Prelude.{
  ℕ, ◌==◌, not, ◌&&◌, ◌≡◌, ◌⊎◌, inl, inr, Bool, false, none, some, List, [], ◌∷◌, ◌++◌, Bool-cases,
}
use lior_paris_wallet.Prelude.Rows.{any, set_where}
use lior_paris_wallet.Orm.{Orm}

module _ (orm : Orm) {R : Type 0} (clash : R → R → Bool) (r : R) (rows : List R) where
  -- A new row is refused, or clashes with none and comes last.
  pub insert_cases :
      (orm.insert clash r rows ≡ none)
      ⊎ ((any (clash r) rows ≡ false) × (orm.insert clash r rows ≡ some (rows ++ r ∷ [])))
  insert_cases = elim (Bool-cases (any (clash r) rows)) [
    | inl taken ↦ inl (rw (orm.insert_lem, taken))
    | inr free ↦ inr (free, rw (orm.insert_lem, free))
  ]

  -- A changed row is refused, or takes the place of the row with its id.
  pub save_cases :
      (id : R → ℕ)
      → (orm.save id clash r rows ≡ none)
        ⊎ (orm.save id clash r rows ≡ some (set_where (λ b. id b == id r) (λ b. r) rows))
  save_cases id = elim (Bool-cases (any (λ b. not (id b == id r) && clash r b) rows)) [
    | inl taken ↦ inl (rw (orm.save_lem, taken))
    | inr free ↦ inr (rw (orm.save_lem, free))
  ]
