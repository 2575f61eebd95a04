-- ===== src/Auth/RoleGuard.antt =====
-- src/features/auth/guards/role.guard.ts. The roles that the decorator has put on a handler, if any,
-- are an argument, as is the role of the request's user, which may be missing.
use lior_paris_wallet.Prelude.{
  String, Bool, true, ◌≡◌, ◌⊎◌, refl, inl, inr, Option, none, some, List, [], ◌∷◌, Memᴰ, str_eq,
  eq_iff, if◌then◌else◌, arith, Bool-cases, subst,
}
use lior_paris_wallet.Prelude.Rows.{any, any-false}
use lior_paris_wallet.Result.{Result, ok, err, forbidden}

-- `user?.role`, of which no type is known: a list of roles, one role, or anything else.
pub data RawRole : Type 0 where
  many : List String → RawRole
  one : String → RawRole
  other : RawRole

unfoldable pub normalize_user_roles : RawRole → List String
normalize_user_roles (many roles) = roles
normalize_user_roles (one role) = role ∷ []
normalize_user_roles other = []

abbrev includes : List String → String → Bool
includes roles role = any (λ r. str_eq r role) roles

unfoldable pub can_activate : (required_roles : Option (List String)) → RawRole → Result Bool
can_activate none raw_role = ok true
can_activate (some required_roles) raw_role =
    if any (includes (normalize_user_roles raw_role)) required_roles
    then ok true
    else err (forbidden "You do not have permission to access this resource")

pub any-true :
    {A : Type 0} (p : A → Bool) (xs : List A) → any p xs ≡ true → (a : A) × Memᴰ a xs × (p a ≡ true)
any-true p [] h = cc
any-true p (x ∷ xs) h = elim (Bool-cases (p x)) [
  | inl here ↦ (x, Memᴰ.head refl, here)
  | inr later ↦
      let (a, m, fits) = any-true p xs (ground (arith, h, later)) in (a, Memᴰ.tail m, fits)
]

-- A handler with roles lets a request in if its user has one of them, and otherwise throws.
pub can_activate_lem :
    (required_roles : List String) (raw_role : RawRole)
    → ((can_activate (some required_roles) raw_role ≡ ok true)
        × ((role : String) × Memᴰ role required_roles × Memᴰ role (normalize_user_roles raw_role)))
      ⊎ ((can_activate (some required_roles) raw_role
            ≡ err (forbidden "You do not have permission to access this resource"))
          × ((role : String)
              → Memᴰ role required_roles
              → Memᴰ role (normalize_user_roles raw_role)
              → ⊥))
unfolding can_activate
can_activate_lem required_roles raw_role =
    let roles = normalize_user_roles raw_role in
    elim (Bool-cases (any (includes roles) required_roles)) [
      | inl has ↦
          let (role, m, included) = any-true (includes roles) required_roles has in
          let (r, n, same) = any-true (λ r. str_eq r role) roles included in
          let equal : r ≡ role = (let both = eq_iff r role in ground (arith, both, same)) in
          inl (rw has refl, (role, m, subst (λ x. Memᴰ x roles) equal n))
      | inr lacks ↦ inr (
        rw lacks refl,
        λ role m n.
            let absent = any-false (includes roles) required_roles lacks m in
            let differs = any-false (λ r. str_eq r role) roles absent n in
            let both = eq_iff role role in absurd (ground (arith, both, differs)),
      )
    ]
