-- ===== src/Examples/People.antt =====
-- Requests on users.
use lior_paris_wallet.Prelude.{◌≡◌, ◌≢◌, ◌⊎◌, ◌==◌, refl, none, some, Memᴰ, [], ◌∷◌}
use lior_paris_wallet.Prelude.Rows.{filter_out}
use lior_paris_wallet.Result.{ok}
use lior_paris_wallet.Orm.Memory.{memory}
use lior_paris_wallet.Entities.{Users, UserRole, users_clash}
use lior_paris_wallet.Users.Repository.{
  UserPatch, find_user_by_id, update_user_details, apply_updates_and_save, apply_updates,
}
use lior_paris_wallet.Users.Policy.{
  ensure_can_update_user, ensure_can_update_role, sanitize_update_data,
}
use lior_paris_wallet.Users.Service.{update_user, remove_user, check_role_update}
use lior_paris_wallet.Users.Permissions.{IsAllowed, update_user-IsAllowed, remove_user_outcome}
use lior_paris_wallet.Examples.Data.{ada, bob, db}

abbrev rename : UserPatch
rename = record { name = some "Ada L."; email = some "x@y.io"; password = some "p"; role = none }

abbrev renamed : Users
renamed = record ada { name = "Ada L."; updated_at = 9 }

update_renames : (update_user memory 1 1 rename UserRole.user 9 db).1.users ≡ renamed ∷ bob ∷ []
unfolding update_user find_user_by_id update_user_details apply_updates_and_save apply_updates
    sanitize_update_data ensure_can_update_user ensure_can_update_role check_role_update users_clash
update_renames = refl

update_user-IsAllowed_example :
    (before : Users) × Memᴰ before db.users × IsAllowed 1 1 UserRole.user before renamed
update_user-IsAllowed_example =
    update_user-IsAllowed memory 1 1 rename UserRole.user 9 db renamed
      (rw update_renames (Memᴰ.head refl))

remove_user_outcome_example :
    let removed = remove_user memory 2 1 UserRole.admin db in
    ((removed.1 ≡ db) × (removed.0 ≢ ok tt))
    ⊎ ((UserRole.admin ≡ UserRole.admin)
        × (bob.id ≢ ada.id)
        × (removed ≡ (
          ok tt,
          record db {
            users = filter_out (λ u. u.id == 1) db.users;
            wallets = filter_out (λ w. w.user_id == 1) db.wallets;
          },
        )))
remove_user_outcome_example = remove_user_outcome memory 2 1 UserRole.admin db
