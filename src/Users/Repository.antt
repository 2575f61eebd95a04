-- ===== src/Users/Repository.antt =====
-- src/features/users/repository/users.repository.ts. The time is an argument; rows are looked up
-- with their wallets by `find_user_by_id_with_wallets`.
use lior_paris_wallet.Prelude.{ℕ, ◌-◌, ◌*◌, String, Option, none, some, List, map, ◌==◌, str_eq}
use lior_paris_wallet.Prelude.Rows.{filter_in}
use lior_paris_wallet.Result.{Action, ok, gets, modify, or_throw, ◌>>=◌, type_error}
use lior_paris_wallet.Orm.{Orm}
use lior_paris_wallet.Store.{saved, save_user}
use lior_paris_wallet.Entities.{Db, Users, Wallet, UserRole, users_clash}

-- `Partial<Users>`: the columns that the program passes in one.
pub record UserPatch : Type 0 where
  pub name : Option String
  pub email : Option String
  pub password : Option String
  pub role : Option UserRole

abbrev pub or_old {ℓ} : {A : Type ℓ} → Option A → A → A
or_old none old = old
or_old (some new) old = new

-- `Object.assign(user, updateData)`; the database sets `updated_at`.
unfoldable pub apply_updates : UserPatch → ℕ → Users → Users
apply_updates changes now user = record user {
  name = or_old changes.name user.name;
  email = or_old changes.email user.email;
  password = or_old changes.password user.password;
  role = or_old changes.role user.role;
  updated_at = now;
}

-- The clamped numbers of dto/paginationQuery.input.ts; both are 1 or more.
pub record PaginationQueryDto : Type 0 where
  pub page : ℕ
  pub limit : ℕ

-- The columns that `findAll` selects.
pub record UserSummary : Type 0 where
  pub id : ℕ
  pub name : String
  pub email : String
  pub role : UserRole
  pub created_at : ℕ
  pub updated_at : ℕ

abbrev pub summary : Users → UserSummary
summary user = record {
  id = user.id;
  name = user.name;
  email = user.email;
  role = user.role;
  created_at = user.created_at;
  updated_at = user.updated_at;
}

module _ (orm : Orm) where
  abbrev pub with_relation : ℕ → List Wallet → Option Users → Option (Users × List Wallet)
  with_relation user_id wallets none = none
  with_relation user_id wallets (some user) =
      some (user, filter_in (λ w. w.user_id == user_id) (orm.listed wallets))

  unfoldable pub create_user : Users → Action Db Users
  create_user user = save_user orm user

  unfoldable pub find_user_by_id : ℕ → Action Db (Option Users)
  find_user_by_id user_id = gets (λ db. orm.find_one (λ u. u.id == user_id) db.users)

  unfoldable pub find_user_by_email : String → Action Db (Option Users)
  find_user_by_email email = gets (λ db. orm.find_one (λ u. str_eq u.email email) db.users)

  -- The relation `wallets`: the rows whose foreign key is the user's id.
  unfoldable pub find_user_by_id_with_wallets : ℕ → Action Db (Option (Users × List Wallet))
  find_user_by_id_with_wallets user_id =
      gets (λ db. with_relation user_id db.wallets (orm.find_one (λ u. u.id == user_id) db.users))

  -- `findAndCount` with its selected columns: all but the password.
  unfoldable pub find_all : PaginationQueryDto → Action Db (List UserSummary × ℕ)
  find_all query db =
      let (rows, total) =
        orm.find_and_count ((query.page - 1) * query.limit) query.limit db.users in
      (ok (map summary rows, total), db)

  unfoldable pub apply_updates_and_save : Users → UserPatch → ℕ → Action Db Users
  apply_updates_and_save user changes now db =
      let user' = apply_updates changes now user in
      saved user' (λ rows. record db { users = rows })
        (orm.save (λ (u : Users). u.id) users_clash user' db.users) db

  unfoldable pub update_user_details : ℕ → UserPatch → ℕ → Action Db Users
  update_user_details id changes now = do
    found ← find_user_by_id id
    user ← or_throw found type_error
    apply_updates_and_save user changes now

  -- The wallets refer to their user with `onDelete: 'CASCADE'`.
  unfoldable pub delete_user : ℕ → Action Db Unit
  delete_user id = modify λ db. record db {
    users = orm.delete (λ u. u.id == id) db.users;
    wallets = orm.delete (λ w. w.user_id == id) db.wallets;
  }
