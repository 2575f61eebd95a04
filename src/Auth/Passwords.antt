-- ===== src/Auth/Passwords.antt =====
-- A change of password (src/features/auth/auth.service.ts).
use lior_paris_wallet.Prelude.{
  ℕ, String, ◌≡◌, ◌⊎◌, ◌==◌, inl, inr, true, Option-cases, Bool-cases, Memᴰ, arith,
}
use lior_paris_wallet.Prelude.Rows.{set_where}
use lior_paris_wallet.Result.{Exception, Result, ok, err, not_found, unauthorized, query_failed}
use lior_paris_wallet.Orm.{Orm}
use lior_paris_wallet.Orm.Laws.{save_cases}
use lior_paris_wallet.Entities.{Users, users_clash}
use lior_paris_wallet.Users.Repository.{
  find_user_by_id, update_user_details, apply_updates_and_save, apply_updates,
}
use lior_paris_wallet.Users.Service.{find_by_id, update_user_password, no_user}
use lior_paris_wallet.Auth.{Argon, ChangePasswordDto, Site, change_password, invalid_credentials}

module _ (orm : Orm) (argon : Argon) (sign : ℕ → ℕ → String → String) (user_id : ℕ)
    (input : ChangePasswordDto) (salt now : ℕ) (site : Site) where
  -- The row with the new password.
  abbrev pub changed : Users → Users
  changed u = record u { password = argon.hash salt input.new_password; updated_at = now }

  abbrev pub answer : Result String × Site
  answer = change_password orm argon sign user_id input salt now site

  -- A request that gets through: the row it has read, whose password the old one is, is replaced.
  pub record Changed : Type 0 where
    pub row : Users
    pub stored : Memᴰ row site.db.users
    pub same_id : row.id ≡ user_id
    pub verified : argon.verify row.password input.old_password ≡ true
    pub accepts : argon.verify (changed row).password input.new_password ≡ true
    pub result : answer ≡ (
      ok "Password updated successfully",
      record site {
        db = record site.db {
          users = set_where (λ b. b.id == row.id) (λ b. changed row) site.db.users;
        };
      },
    )

  -- A change of password throws and changes nothing, or the old password was the user's, and the
  -- user's row, and no other, has the hash of the new one.
  pub change_password_outcome :
      ((answer.1 ≡ site) × ((x : Exception) × (answer.0 ≡ err x))) ⊎ Changed
  unfolding change_password find_by_id find_user_by_id update_user_password update_user_details
      apply_updates_and_save apply_updates
  change_password_outcome =
      elim (Option-cases (orm.find_one (λ u. u.id == user_id) site.db.users)) [
        | inl missing ↦ inl (ground arith, (not_found no_user, ground arith))
        | inr (u, found) ↦ elim (Bool-cases (argon.verify u.password input.old_password)) [
          | inr wrong ↦ inl (ground arith, (unauthorized invalid_credentials, ground arith))
          | inl right ↦ elim (save_cases orm users_clash (changed u) site.db.users (λ u. u.id)) [
            | inl taken ↦ inl (ground arith, (query_failed, ground arith))
            | inr saved ↦
                let (m, fits) = orm.find_one-some _ _ found in
                inr (record {
                  row = u;
                  stored = m;
                  same_id = ground (arith, fits);
                  verified = right;
                  accepts = argon.verify-hash salt input.new_password;
                  result = ground arith;
                })
          ]
        ]
      ]
