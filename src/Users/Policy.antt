-- ===== src/Users/Policy.antt =====
-- src/features/users/policies/users.policy.ts.
use lior_paris_wallet.Prelude.{ℕ, Bool, true, false, ◌||◌, not, none, ◌==◌, if◌then◌else◌}
use lior_paris_wallet.Result.{Result, ok, err, forbidden}
use lior_paris_wallet.Entities.{UserRole, admin, user}
use lior_paris_wallet.Users.Repository.{UserPatch}

abbrev pub is_admin : UserRole → Bool
is_admin admin = true
is_admin user = false

unfoldable pub ensure_can_update_user :
    (requesting_user_id target_user_id : ℕ) → UserRole → Result Unit
ensure_can_update_user requesting_user_id target_user_id role =
    if requesting_user_id == target_user_id || is_admin role
    then ok tt
    else err (forbidden "You do not have permission to update user")

unfoldable pub ensure_can_update_role : UserRole → Result Unit
ensure_can_update_role role =
    if is_admin role then ok tt else err (forbidden "You do not have permission to update role")

unfoldable pub ensure_can_delete_user :
    (requesting_user_id target_user_id : ℕ) → UserRole → Result Unit
ensure_can_delete_user requesting_user_id target_user_id role =
    if requesting_user_id == target_user_id
    then err (forbidden "You cannot delete yourself")
    else (if not (is_admin role)
        then err (forbidden "You do not have permission to delete users")
        else ok tt)

unfoldable pub sanitize_update_data : UserPatch → UserRole → UserPatch
sanitize_update_data changes role =
    let sanitized : UserPatch = record changes { email = none; password = none } in
    if not (is_admin role) then record sanitized { role = none } else sanitized
