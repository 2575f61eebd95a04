-- ===== src/Result.antt =====
-- What the handlers throw, and methods that read and write a state and may throw.
-- What was written before a throw stays written, so the state comes back beside the error too.
use lior_paris_wallet.Prelude.{
  ◌≡◌, ◌⊎◌, refl, inl, inr, String, Bool, true, false, Option, none, some, if◌then◌else◌,
}

-- The exceptions of `@nestjs/common` that the program throws, with their messages; TypeORM's
-- `QueryFailedError` of a violated unique index; the `TypeError` of a property of `null`; any error
-- that a payment provider's call rejects with; and a plain `Error`.
pub data Exception : Type 0 where
  bad_request conflict not_found unauthorized forbidden unsupported_media_type : String → Exception
  query_failed : Exception
  type_error : Exception
  provider_error : String → Exception
  error : String → Exception

pub data Result (A : Type 0) : Type 0 where
  ok : A → Result A
  err : Exception → Result A

pub Result-cases :
    {A : Type 0} (r : Result A) → ((a : A) × (r ≡ ok a)) ⊎ ((x : Exception) × (r ≡ err x))
Result-cases (ok a) = inl (a, refl)
Result-cases (err x) = inr (x, refl)

abbrev pub is_ok : {A : Type 0} → Result A → Bool
is_ok (ok a) = true
is_ok (err x) = false

pub ok_inj : {A : Type 0} {a b : A} → ok a ≡ ok b → a ≡ b
ok_inj h = cc

abbrev pub Action : Type 0 → Type 0 → Type 0
Action S A = S → Result A × S

module _ {S A : Type 0} where
  abbrev pub pure : A → Action S A
  pure a s = (ok a, s)

  abbrev pub throw : Exception → Action S A
  throw e s = (err e, s)

  abbrev pub gets : (S → A) → Action S A
  gets f s = (ok (f s), s)

  abbrev pub or_throw : Option A → Exception → Action S A
  or_throw none e = throw e
  or_throw (some a) e = pure a

infixl 5 ◌>>=◌ ◌>>◌
abbrev pub ◌>>=◌ : {S A B : Type 0} → Action S A → (A → Action S B) → Action S B
◌>>=◌ m f s = let (r, s') = m s in elim r [ ok a ↦ f a s' | err e ↦ throw e s' ]

abbrev pub ◌>>◌ : {S A B : Type 0} → Action S A → Action S B → Action S B
m >> k = m >>= λ _. k

abbrev pub modify : {S : Type 0} → (S → S) → Action S Unit
modify f s = (ok tt, f s)

abbrev pub throw_if : {S : Type 0} → Bool → Exception → Action S Unit
throw_if b e s = (if b then err e else ok tt, s)

-- A transaction commits what a body that returns has written, and nothing of one that throws.
abbrev pub atomically : {S A : Type 0} → Result A × S → S → Result A × S
atomically (ok a, s') s = (ok a, s')
atomically (err e, s') s = (err e, s)

-- A call of a pure function that may throw.
abbrev pub lift : {S A : Type 0} → Result A → Action S A
lift r s = (r, s)
