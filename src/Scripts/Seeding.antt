-- ===== src/Scripts/Seeding.antt =====
-- What the seeding script (scripts/seed-admin.ts) leaves behind, and what a second run of it does.
use lior_paris_wallet.Prelude.{
  String, ◌≡◌, refl, ◌∙◌, ◌⊎◌, inl, inr, none, some, [], ◌∷◌, ◌++◌, str_eq, arith,
}
use lior_paris_wallet.Prelude.Rows.{HasUniqueKeys}
use lior_paris_wallet.Result.{Result, Exception, ok, err, query_failed}
use lior_paris_wallet.Orm.{Orm}
use lior_paris_wallet.Entities.{Db, Users, users_clash, wallet_clash}
use lior_paris_wallet.Auth.{Argon}
use lior_paris_wallet.Scripts.SeedAdmin.{
  Env, SeedIds, get_required_env, env_or, new_admin, admin_wallet, create_admin, seed,
  seed_by_email, main,
}
use lior_paris_wallet.Scripts.Admins.{HasAdmin, seed_again, added-HasAdmin, seed_cases}

-- A required value is there, or the script throws.
required_cases :
    (env : Env) (name : String)
    → ((x : Exception) × (get_required_env env name ≡ err x))
      ⊎ ((value : String) × (get_required_env env name ≡ ok value))
required_cases env name = go (get_required_env env name) refl
  where
    go :
        (r : Result String)
        → get_required_env env name ≡ r
        → ((x : Exception) × (get_required_env env name ≡ err x))
          ⊎ ((value : String) × (get_required_env env name ≡ ok value))
    go (err x) e = inl (x, e)
    go (ok value) e = inr (value, e)

-- Where emails are unique, a run of the script throws and changes nothing, or the email that the
-- environment gives is an admin's and no other user's, and a run after it returns and changes nothing.
pub main_outcome :
    (orm : Orm) (argon : Argon) (ids : SeedIds) (env : Env) (db : Db)
    → HasUniqueKeys (λ (u : Users). u.email) db.users
    → ((x : Exception) × (main orm argon ids env db ≡ (err x, db)))
      ⊎ ((email : String) × (get_required_env env "ADMIN_EMAIL" ≡ ok email)
          × HasAdmin email (main orm argon ids env db).1
          × (main orm argon ids env (main orm argon ids env db).1
              ≡ (ok tt, (main orm argon ids env db).1)))
unfolding main
main_outcome orm argon ids env db unique = elim (required_cases env "MYSQL_USER") [
  | inl (x, u) ↦ inl (x, ground arith)
  | inr (user, u) ↦ elim (required_cases env "MYSQL_DB") [
    | inl (x, d) ↦ inl (x, ground arith)
    | inr (database, d) ↦ elim (required_cases env "ADMIN_EMAIL") [
      | inl (x, e) ↦ inl (x, ground arith)
      | inr (email, e) ↦ elim (required_cases env "ADMIN_PASSWORD") [
        | inl (x, p) ↦ inl (x, ground arith)
        | inr (password, p) ↦
            let name = env_or env "ADMIN_NAME" "Admin" in
            let run : (db' : Db)
                → main orm argon ids env db' ≡ seed_by_email orm argon ids name email password db' =
              λ db'. ground arith in
            elim (seed_cases orm argon ids name email password db unique) [
              | inl refused ↦ inl (query_failed, run db ∙ refused)
              | inr has ↦ inr (
                email,
                e,
                rw (run db) has,
                rw (run db) (run _ ∙ seed_again orm argon ids name email password _ has),
              )
            ]
      ]
    ]
  ]
]

-- If the new admin is saved and the wallet is refused, the script throws, the admin stays without a
-- wallet, and a further run returns and does not open one.
seed_by_email-stranded :
    (orm : Orm) (argon : Argon) (ids : SeedIds) (name email password : String) (db : Db)
    → let admin = new_admin argon ids name email password in
      let after = record db { users = db.users ++ admin ∷ [] } in
      orm.find_one (λ u. str_eq u.email email) db.users ≡ none
      → orm.insert users_clash admin db.users ≡ some after.users
      → orm.insert wallet_clash (admin_wallet ids) db.wallets ≡ none
      → (seed_by_email orm argon ids name email password db ≡ (err query_failed, after))
        × (seed_by_email orm argon ids name email password after ≡ (ok tt, after))
unfolding seed_by_email seed create_admin
seed_by_email-stranded orm argon ids name email password db unknown free full = (
  rw unknown (ground arith),
  seed_again orm argon ids name email password _
      (added-HasAdmin orm argon ids name email password db _ unknown refl),
)
