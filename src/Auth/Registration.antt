-- ===== src/Auth/Registration.antt =====
-- Registration and login (src/features/auth/auth.service.ts).
use lior_paris_wallet.Prelude.{
  ℕ, String, none, ◌≡◌, ◌⊎◌, refl, ◌∙◌, ap, if◌then◌else◌, sym, inl, inr, false, str_eq, eq_iff,
  some, Option-cases, Bool-cases, [], ◌∷◌, ◌++◌, Memᴰ, arith,
}
use mathlib.Core.List.Memᴰ
use lior_paris_wallet.Prelude.Rows.{any-false, mem-snoc}
use lior_paris_wallet.Result.{Exception, ok, err, query_failed, conflict, unauthorized, ok_inj}
use lior_paris_wallet.Orm.{Orm}
use lior_paris_wallet.Orm.Laws.{insert_cases}
use lior_paris_wallet.Entities.{Users, users_clash}
use lior_paris_wallet.Users.Repository.{find_user_by_email, create_user}
use lior_paris_wallet.Users.Service.{UserResultDto, map_result}
use lior_paris_wallet.Auth.{
  Argon, RegisterDto, RegisterIds, Site, new_user, register, login, check_duplicate_email,
  create_login_token, invalid_credentials,
}

module _ (orm : Orm) (argon : Argon) (sign : ℕ → ℕ → String → String) (ids : RegisterIds)
    (input : RegisterDto) (site : Site) where
  abbrev pub registered : Users
  registered = new_user argon ids input

  -- The user, with a token that is signed at a time.
  abbrev pub signed : (now : ℕ) → UserResultDto
  signed now = map_result registered none (some (sign now ids.user_id input.email))

  abbrev pub site_after : Site
  site_after = record {
    db = record site.db { users = site.db.users ++ registered ∷ [] };
    emitted =
        site.emitted
        ++ record { user_id = ids.user_id; email = input.email; name = input.name } ∷ [];
  }

  pub register_outcome :
      let (r, site') = register orm argon sign ids input site in
      ((site' ≡ site) × ((x : Exception) × (r ≡ err x)))
      ⊎ (((u : Users) → Memᴰ u site.db.users → str_eq u.email input.email ≡ false)
          × (r ≡ ok (signed ids.signed_at))
          × (site' ≡ site_after))
  unfolding register check_duplicate_email find_user_by_email create_user create_login_token
  register_outcome =
      elim (Option-cases (orm.find_one (λ u. str_eq u.email input.email) site.db.users)) [
        | inr (u, used) ↦ inl (ground arith, (conflict "Email already in use.", ground arith))
        | inl unused ↦ elim (insert_cases orm users_clash registered site.db.users) [
          | inl taken ↦ inl (ground arith, (query_failed, ground arith))
          | inr (free, created) ↦ inr (
            λ u m.
                any-false (λ u. str_eq u.email input.email) site.db.users
                  (orm.find_one-none _ _ unused) m,
            ground arith,
            ground arith,
          )
        ]
      ]

  -- The new row is the one that its email finds.
  found_registered :
      ((u : Users) → Memᴰ u site.db.users → str_eq u.email input.email ≡ false)
      → orm.find_one (λ u. str_eq u.email input.email) site_after.db.users ≡ some registered
  found_registered unused =
      elim (Option-cases (orm.find_one (λ u. str_eq u.email input.email) site_after.db.users)) [
        | inl missing ↦
            let none_fits =
              any-false (λ u. str_eq u.email input.email) site_after.db.users
                (orm.find_one-none _ _ missing)
                (Memᴰ.append_right site.db.users (Memᴰ.head refl)) in
            let same = eq_iff input.email input.email in absurd (ground (arith, none_fits, same))
        | inr (u, found) ↦
            let (m, fits) = orm.find_one-some _ _ found in
            elim (mem-snoc site.db.users m) [
              | inl old ↦ let other = unused u old in absurd (ground (arith, other, fits))
              | inr new ↦ found ∙ ap (λ (u : Users). some u) new
            ]
      ]

  -- A login after the registration goes by the password's check, whatever the password.
  login_after :
      (now : ℕ) (password : String)
      → ((u : Users) → Memᴰ u site.db.users → str_eq u.email input.email ≡ false)
      → login orm argon sign now (record { email = input.email; password = password }) site_after
        ≡ (
          if argon.verify (argon.hash ids.salt input.password) password
              then ok (signed now)
              else err (unauthorized invalid_credentials),
          site_after,
        )
  unfolding login find_user_by_email create_login_token
  login_after now password unused =
      let found = found_registered unused in
      elim (Bool-cases (argon.verify (argon.hash ids.salt input.password) password)) [
        | inl right ↦ ground arith
        | inr wrong ↦ ground arith
      ]

  -- Once a registration has returned, a login with its email and password, at any time, returns the same
  -- user with the token that is signed at that time, and changes nothing; with a password that the hash does
  -- not verify it is refused. The registration has returned the user with the token of its own time.
  pub login-register :
      (x : UserResultDto) (now : ℕ) (password : String)
      → (register orm argon sign ids input site).0 ≡ ok x
      → argon.verify (argon.hash ids.salt input.password) password ≡ false
      → let site' = (register orm argon sign ids input site).1 in
        (x ≡ signed ids.signed_at)
        × (login orm argon sign now
              (record { email = input.email; password = input.password })
              site'
            ≡ (ok (record x { access_token = (signed now).access_token }), site'))
        × (login orm argon sign now (record { email = input.email; password = password }) site'
            ≡ (err (unauthorized invalid_credentials), site'))
  unfolding map_result
  login-register x now password returned wrong = elim register_outcome [
    | inl (same, (y, thrown)) ↦ absurd (ground (arith, returned, thrown))
    | inr (unused, result, after) ↦
        let right = argon.verify-hash ids.salt input.password in
        let one : x ≡ signed ids.signed_at = ok_inj (sym returned ∙ result) in
        rw after (
          one,
          login_after now input.password unused ∙ rw right (rw one refl),
          login_after now password unused ∙ rw wrong refl,
        )
  ]
