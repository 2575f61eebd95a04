-- ===== src/Http/Refusals.antt =====
-- What a client is answered when something is thrown
-- (src/shared/filters/jsonapi-exception.filter.ts, src/shared/pipes/zod-validation.pipe.ts).
use mathlib.Core.List.Memᴰ
use lior_paris_wallet.Prelude.{
  ℕ, String, ◌≡◌, ◌↔◌, ◌⊎◌, refl, sym, ap, subst, ◌∙◌, true, false, inl, inr, Bool-cases, Option,
  none, some, List, [], ◌∷◌, map, Memᴰ, eq_iff, arith,
}
use lior_paris_wallet.Http.Json.{Json}
use lior_paris_wallet.Http.Errors.{
  Issue, JsonApiErrorObject, error_of_key, error_of_path, errors_from_keys, unrecognized,
  errors_from_zod_issues,
}

pub map_mem :
    {A B : Type 0} (f : A → B) {b : B} (xs : List A)
    → Memᴰ b (map f xs)
    → (a : A) × Memᴰ a xs × (b ≡ f a)
map_mem f [] m = absurd (Memᴰ.not-nil m)
map_mem f (x ∷ xs) m = elim (Memᴰ.cases_cons m) [
  | inl e ↦ (x, Memᴰ.head refl, e)
  | inr t ↦ let (a, n, e) = map_mem f xs t in (a, Memᴰ.tail n, e)
]

-- The issue names keys that the schema does not have.
abbrev pub IsOfKeys : Issue → List String → Type 0
IsOfKeys issue keys = (issue.keys ≡ some keys) × (issue.code ≡ some "unrecognized_keys")

some_inj : {A : Type 0} {a b : A} → some a ≡ some b → a ≡ b
some_inj h = cc

unrecognized_iff :
    (code : Option String) → (unrecognized code ≡ true) ↔ (code ≡ some "unrecognized_keys")
unrecognized_iff none = (λ h. absurd (ground arith), λ h. absurd (ground arith))
unrecognized_iff (some code) = (
  λ h. ap some ((eq_iff code "unrecognized_keys").0 h),
  λ h. (eq_iff code "unrecognized_keys").1 (some_inj h),
)

module _ (status : ℕ) (title : String) where
  -- The error says what an issue says: of one of its keys, or of its path.
  abbrev pub Describes : JsonApiErrorObject → Issue → Type 0
  Describes x issue =
      ((keys : List String) × (key : String) × IsOfKeys issue keys
        × Memᴰ key keys
        × (x ≡ error_of_key status title key))
      ⊎ (((keys : List String) → ¬ IsOfKeys issue keys) × (x ≡ error_of_path status title issue))

  -- The errors of one issue are those that say what it says.
  Describes-one :
      (issue : Issue) (keys : Option (List String)) (x : JsonApiErrorObject)
      → issue.keys ≡ keys
      → Memᴰ x (errors_from_keys status title issue keys) ↔ Describes x issue
  Describes-one issue none x e = (
    λ m.
        inr (
          λ keys h. let c : none ≡ some keys = sym e ∙ h.0 in ground arith,
          Memᴰ.eq_of_singleton m,
        ),
    λ d. elim d [
      | inl (keys, key, h, n, y) ↦ let c : none ≡ some keys = sym e ∙ h.0 in absurd (ground arith)
      | inr (other, y) ↦ Memᴰ.head y
    ],
  )
  Describes-one issue (some keys) x e = elim (Bool-cases (unrecognized issue.code)) [
    | inl named_so ↦ (
      λ m.
          let (key, n, y) = map_mem (error_of_key status title) keys (rw named_so at m) in
          inl (keys, key, (e, (unrecognized_iff issue.code).0 named_so), n, y),
      λ d. elim d [
        | inl (named, key, h, n, y) ↦
            let same : named ≡ keys = some_inj (sym h.0 ∙ e) in
            rw (named_so, y) (Memᴰ.map (error_of_key status title) (rw same at n))
        | inr (other, y) ↦ absurd (other keys (e, (unrecognized_iff issue.code).0 named_so))
      ],
    )
    | inr unlike ↦ (
      λ m. inr (
        λ named h.
            let c : true ≡ false = sym ((unrecognized_iff issue.code).1 h.1) ∙ unlike in
            ground arith,
        Memᴰ.eq_of_singleton (rw unlike at m),
      ),
      λ d. elim d [
        | inl (named, key, h, n, y) ↦
            let c : true ≡ false = sym ((unrecognized_iff issue.code).1 h.1) ∙ unlike in
            absurd (ground arith)
        | inr (other, y) ↦ rw unlike (Memᴰ.head y)
      ],
    )
  ]

  -- The errors of a refused body are those that say what an issue says, no other and none left out.
  pub Describes-all :
      (issues : List Issue) (x : JsonApiErrorObject)
      → Memᴰ x (errors_from_zod_issues status title issues)
        ↔ ((issue : Issue) × Memᴰ issue issues × Describes x issue)
  unfolding errors_from_zod_issues
  Describes-all [] x = (λ m. absurd (Memᴰ.not-nil m), λ (issue, m, d). absurd (Memᴰ.not-nil m))
  Describes-all (issue ∷ issues) x = (
    λ m. elim (Memᴰ.append_cases (errors_from_keys status title issue issue.keys) m) [
      | inl first ↦ (issue, Memᴰ.head refl, (Describes-one issue issue.keys x refl).0 first)
      | inr later ↦ let (other, n, d) = (Describes-all issues x).0 later in (other, Memᴰ.tail n, d)
    ],
    λ (other, n, d). elim (Memᴰ.cases_cons n) [
      | inl e ↦
          Memᴰ.append_left (errors_from_zod_issues status title issues)
            ((Describes-one issue issue.keys x refl).1 (subst (λ i. Describes x i) e d))
      | inr t ↦
          Memᴰ.append_right (errors_from_keys status title issue issue.keys)
            ((Describes-all issues x).1 (other, t, d))
    ],
  )
