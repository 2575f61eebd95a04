-- ===== src/Scripts/SeedAdmin.antt =====
-- scripts/seed-admin.ts from its environment to the end of `main`; the connection and the log are left
-- out. The new rows' uuids, the salt, the suffix of the wallet's tag and the time are arguments.
use Prim.Native.String.{◌++◌ as ◌&◌}
use lior_paris_wallet.Prelude.{ℕ, String, Option, none, some, str_eq, if◌then◌else◌}
use lior_paris_wallet.Prelude.Int.{pos}
use lior_paris_wallet.Result.{Action, Result, ok, err, error, pure, lift, ◌>>=◌}
use lior_paris_wallet.Orm.{Orm}
use lior_paris_wallet.Store.{saved, save_user, save_wallet}
use lior_paris_wallet.Entities.{Db, Users, UserRole, Wallet, users_clash, default_currency}
use lior_paris_wallet.Auth.{Argon}

-- `process.env`
abbrev pub Env : Type 0
Env = String → Option String

unfoldable pub get_required_env : Env → String → Result String
get_required_env env name = elim (env name) [
  | none ↦ err (error ("Missing required env var: " & name))
  | some value ↦
      if str_eq value "" then err (error ("Missing required env var: " & name)) else ok value
]

-- `process.env[name] ?? fallback`
abbrev pub env_or : Env → String → String → String
env_or env name fallback = elim (env name) [ none ↦ fallback | some value ↦ value ]

-- What the runtime supplies.
pub record SeedIds : Type 0 where
  pub user_id : ℕ
  pub wallet_id : ℕ
  pub salt : ℕ
  pub now : ℕ
  pub wallet_tag : String

abbrev pub new_admin : Argon → SeedIds → (name email password : String) → Users
new_admin argon ids name email password = record {
  id = ids.user_id;
  name = name;
  email = email;
  password = argon.hash ids.salt password;
  role = UserRole.admin;
  created_at = ids.now;
  updated_at = ids.now;
}

abbrev pub admin_wallet : SeedIds → Wallet
admin_wallet ids = record {
  id = ids.wallet_id;
  user_id = ids.user_id;
  balance = pos 0;
  currency = default_currency;
  wallet_tag = ids.wallet_tag;
}

abbrev pub promoted : SeedIds → Users → Users
promoted ids user = record user { role = UserRole.admin; updated_at = ids.now }

module _ (orm : Orm) (argon : Argon) (ids : SeedIds) where
  -- A user that is an admin stays, another one is promoted.
  unfoldable pub promote : Users → UserRole → Action Db Unit
  promote existing UserRole.admin db = (ok tt, db)
  promote existing UserRole.user db =
      let (r, db') =
        saved (promoted ids existing) (λ rows. record db { users = rows })
          (orm.save (λ (u : Users). u.id) users_clash (promoted ids existing) db.users) db in
      elim r [ ok user ↦ (ok tt, db') | err e ↦ (err e, db') ]

  unfoldable pub create_admin : (name email password : String) → Action Db Unit
  create_admin name email password = do
    admin ← save_user orm (new_admin argon ids name email password)
    wallet ← save_wallet orm (admin_wallet ids)
    pure tt

  unfoldable pub seed : (name email password : String) → Option Users → Action Db Unit
  seed name email password none = create_admin name email password
  seed name email password (some existing) = promote existing existing.role

  unfoldable pub seed_by_email : (name email password : String) → Action Db Unit
  seed_by_email name email password db =
      seed name email password (orm.find_one (λ u. str_eq u.email email) db.users) db

  unfoldable pub main : Env → Action Db Unit
  main env = do
    username ← lift (get_required_env env "MYSQL_USER")
    database ← lift (get_required_env env "MYSQL_DB")
    email ← lift (get_required_env env "ADMIN_EMAIL")
    password ← lift (get_required_env env "ADMIN_PASSWORD")
    seed_by_email (env_or env "ADMIN_NAME" "Admin") email password
