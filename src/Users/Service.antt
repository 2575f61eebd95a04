-- ===== src/Users/Service.antt =====
-- src/features/users/users.service.ts and the result of src/shared/mapper. A `try` block that logs an
-- error and throws it again is its body.
use lior_paris_wallet.Prelude.{ℕ, String, Option, none, some, List, if◌then◌else◌, str_eq}
use lior_paris_wallet.Result.{Action, pure, or_throw, lift, ◌>>=◌, ◌>>◌, not_found, type_error}
use lior_paris_wallet.Orm.{Orm}
use lior_paris_wallet.Entities.{Db, Users, UserRole, Wallet}
use lior_paris_wallet.Users.Repository.{
  UserPatch, UserSummary, PaginationQueryDto, find_all, find_user_by_id,
  find_user_by_id_with_wallets, update_user_details, delete_user,
}
use lior_paris_wallet.Users.Policy.{
  ensure_can_update_user, ensure_can_update_role, ensure_can_delete_user, sanitize_update_data,
}

-- `UserResultDto`; the relation `wallets` is there if it was read.
pub record UserResultDto : Type 0 where
  pub id : ℕ
  pub name : String
  pub email : String
  pub role : UserRole
  pub access_token : Option String
  pub wallets : Option (List Wallet)
  pub created_at : ℕ
  pub updated_at : ℕ

-- `accessToken || undefined`
abbrev pub token_of : Option String → Option String
token_of none = none
token_of (some token) = if str_eq token "" then none else some token

unfoldable pub map_result : Users → Option (List Wallet) → Option String → UserResultDto
map_result user wallets access_token = record {
  id = user.id;
  name = user.name;
  email = user.email;
  role = user.role;
  access_token = token_of access_token;
  wallets = wallets;
  created_at = user.created_at;
  updated_at = user.updated_at;
}

abbrev pub no_user : String
no_user = "User with ID ${userId} not found"

module _ (orm : Orm) where
  unfoldable pub find_by_id : ℕ → Action Db Users
  find_by_id user_id = do found ← find_user_by_id orm user_id; or_throw found (not_found no_user)

  unfoldable pub user_me : ℕ → Action Db UserResultDto
  user_me user_id = do
    found ← find_user_by_id_with_wallets orm user_id
    (user, wallets) ← or_throw found type_error
    pure (map_result user (some wallets) none)

  unfoldable pub find_user : ℕ → Action Db UserResultDto
  find_user user_id = do
    found ← find_user_by_id_with_wallets orm user_id
    (user, wallets) ← or_throw found (not_found no_user)
    pure (map_result user (some wallets) none)

  unfoldable pub all_users : PaginationQueryDto → Action Db (List UserSummary × ℕ)
  all_users query = find_all orm query

  unfoldable pub update_user_password : ℕ → (password : String) → (now : ℕ) → Action Db Users
  update_user_password user_id password now =
      update_user_details orm user_id
        (record { name = none; email = none; password = some password; role = none }) now

  -- `if (updateData?.role) this.usersPolicy.ensureCanUpdateRole(role)`
  unfoldable pub check_role_update : Option UserRole → UserRole → Action Db Unit
  check_role_update none role = pure tt
  check_role_update (some new) role = lift (ensure_can_update_role role)

  unfoldable pub update_user :
      (requesting_user_id target_user_id : ℕ)
      → UserPatch
      → UserRole
      → (now : ℕ) → Action Db UserResultDto
  unfolding check_role_update
  update_user requesting_user_id target_user_id update_data role now = do
    found ← find_user_by_id orm target_user_id
    target ← or_throw found (not_found no_user)
    lift (ensure_can_update_user requesting_user_id target_user_id role)
    check_role_update update_data.role role
    updated ← update_user_details orm target_user_id (sanitize_update_data update_data role) now
    pure (map_result updated none none)

  unfoldable pub remove_user : (requesting_user_id target_user_id : ℕ) → UserRole → Action Db Unit
  remove_user requesting_user_id target_user_id role = do
    found ← find_user_by_id orm target_user_id
    target ← or_throw found (not_found no_user)
    lift (ensure_can_delete_user requesting_user_id target_user_id role)
    delete_user orm target_user_id
