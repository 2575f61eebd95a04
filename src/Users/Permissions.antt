-- ===== src/Users/Permissions.antt =====
-- Who may do what to a user: `updateUserDetails` and `deleteUser` of
-- src/features/users/users.service.ts under src/features/users/policies/users.policy.ts.
use lior_paris_wallet.Prelude.{
  subst, ◌∙◌, ℕ, ◌≡◌, ◌≢◌, ◌⊎◌, ◌==◌, ◌||◌, refl, sym, inl, inr, true, Bool-cases, Option-cases,
  some, Memᴰ, arith, if◌then◌else◌,
}
use lior_paris_wallet.Prelude.Rows.{set_where, set_where-mem, filter_out}
use lior_paris_wallet.Result.{Result, ok}
use lior_paris_wallet.Orm.{Orm}
use lior_paris_wallet.Orm.Laws.{save_cases}
use lior_paris_wallet.Entities.{Db, Users, Wallet, UserRole, admin, user, users_clash}
use lior_paris_wallet.Users.Repository.{
  UserPatch, apply_updates, find_user_by_id, update_user_details, apply_updates_and_save,
  delete_user,
}
use lior_paris_wallet.Users.Policy.{
  is_admin, ensure_can_update_user, ensure_can_update_role, ensure_can_delete_user,
  sanitize_update_data,
}
use lior_paris_wallet.Users.Service.{update_user, remove_user, check_role_update, UserResultDto}

module _ (requester target : ℕ) (role : UserRole) where
  -- What a request may change of a user: the name of its own row, or of any row for an admin, and
  -- the role for an admin only; never the id, the email or the password.
  pub record IsAllowed (before after : Users) : Type 0 where
    pub same_id : after.id ≡ before.id
    pub same_email : after.email ≡ before.email
    pub same_password : after.password ≡ before.password
    pub same_role : (after.role ≡ before.role) ⊎ (role ≡ admin)
    pub permitted :
        (after ≡ before) ⊎ ((before.id ≡ target) × ((requester ≡ target) ⊎ (role ≡ admin)))

  unchanged : (u : Users) → IsAllowed u u
  unchanged u = record {
    same_id = refl;
    same_email = refl;
    same_password = refl;
    same_role = inl refl;
    permitted = inl refl;
  }

-- The row that an update writes.
abbrev written : UserRole → UserPatch → ℕ → Users → Users
written role changes now u = apply_updates (sanitize_update_data changes role) now u

written-id :
    (role : UserRole) (changes : UserPatch) (now : ℕ) (u : Users)
    → (written role changes now u).id ≡ u.id
unfolding apply_updates
written-id role changes now u = refl

written-IsAllowed :
    (requester target : ℕ) (role : UserRole) (changes : UserPatch) (now : ℕ) (u : Users)
    → u.id ≡ target
    → (requester == target || is_admin role) ≡ true
    → IsAllowed requester target role u (written role changes now u)
unfolding apply_updates sanitize_update_data
written-IsAllowed requester target admin changes now u here allowed = record {
  same_id = refl;
  same_email = refl;
  same_password = refl;
  same_role = inr refl;
  permitted = inr (here, inr refl);
}
written-IsAllowed requester target user changes now u here allowed = record {
  same_id = refl;
  same_email = refl;
  same_password = refl;
  same_role = inl refl;
  permitted = inr (here, inl (ground arith));
}

admin_of : (role : UserRole) → is_admin role ≡ true → role ≡ admin
admin_of admin h = refl
admin_of user h = cc

module _ (orm : Orm) (requester target : ℕ) (changes : UserPatch) (role : UserRole) (now : ℕ)
    (db : Db) where
  abbrev updated : Result UserResultDto × Db
  updated = update_user orm requester target changes role now db

  -- A request that gets through has written one row.
  record Updated : Type 0 where
    row : Users
    stored : Memᴰ row db.users
    found : row.id ≡ target
    allowed : (requester == target || is_admin role) ≡ true
    users :
        updated.1.users
        ≡ set_where
            (λ b. b.id == (written role changes now row).id)
            (λ b. written role changes now row)
            db.users

  writes :
      (u : Users)
      → orm.find_one (λ u. u.id == target) db.users ≡ some u
      → (requester == target || is_admin role) ≡ true
      → (check_role_update orm changes.role role db ≡ (ok tt, db))
      → (updated.1 ≡ db) ⊎ Updated
  unfolding update_user find_user_by_id update_user_details apply_updates_and_save
      ensure_can_update_user
  writes u found allowed checked =
      let (stored, is_target) = orm.find_one-some _ _ found in
      elim (save_cases orm users_clash (written role changes now u) db.users (λ u. u.id)) [
        | inl taken ↦ inl (ground arith)
        | inr saved ↦ inr (record {
          row = u;
          stored = stored;
          found = ground (arith, is_target);
          allowed = allowed;
          users = ground arith;
        })
      ]

  update_cases : (updated.1 ≡ db) ⊎ Updated
  unfolding update_user find_user_by_id ensure_can_update_user ensure_can_update_role
      check_role_update
  update_cases = elim (Option-cases (orm.find_one (λ u. u.id == target) db.users)) [
    | inl missing ↦ inl (ground arith)
    | inr (u, found) ↦ elim (Bool-cases (requester == target || is_admin role)) [
      | inr refused ↦ inl (ground arith)
      | inl allowed ↦ elim (Option-cases changes.role) [
        | inl no_role ↦ writes u found allowed (rw no_role refl)
        | inr (new, given) ↦ elim (Bool-cases (is_admin role)) [
          | inr forbids ↦ inl (ground arith)
          | inl admits ↦ writes u found allowed (rw given (ground arith))
        ]
      ]
    ]
  ]

  row_after :
      (w : Updated) (b after : Users)
      → Memᴰ b db.users
      → (after ≡ (
          if b.id == (written role changes now w.row).id
          then written role changes now w.row
          else b))
      → (before : Users) × Memᴰ before db.users × IsAllowed requester target role before after
  row_after w b after n q = elim (Bool-cases (b.id == (written role changes now w.row).id)) [
    | inr miss ↦
        let same : after ≡ b = q ∙ rw miss refl in
        (
          b,
          n,
          subst (λ a. IsAllowed requester target role b a) (sym same)
              (unchanged requester target role b),
        )
    | inl hit ↦
        let new : after ≡ written role changes now w.row = q ∙ rw hit refl in
        let allowed = written-IsAllowed requester target role changes now w.row w.found w.allowed in
        (w.row, w.stored, subst (λ a. IsAllowed requester target role w.row a) (sym new) allowed)
  ]

  -- Whatever a request asks for, a user's id, email and password stay; the role stays unless the
  -- requester is an admin; and a user other than the target stays as it is, as does the target
  -- unless the requester is the target or an admin.
  pub update_user-IsAllowed :
      (after : Users)
      → Memᴰ after updated.1.users
      → (before : Users) × Memᴰ before db.users × IsAllowed requester target role before after
  update_user-IsAllowed after m = elim update_cases [
    | inl same ↦ (after, rw same at m, unchanged requester target role after)
    | inr w ↦
        let (b, n, q) =
          set_where-mem (λ b. b.id == (written role changes now w.row).id) _ db.users
            (rw w.users at m) in
        row_after w b after n q
  ]

module _ (orm : Orm) (requester target : ℕ) (role : UserRole) (db : Db) where
  abbrev removed : Result Unit × Db
  removed = remove_user orm requester target role db

  -- A deletion is refused and changes nothing, or an admin who is not the target
  -- has asked for it, and the target and its wallets, and no others, are gone.
  pub remove_user_outcome :
      ((removed.1 ≡ db) × (removed.0 ≢ ok tt))
      ⊎ ((role ≡ admin)
          × (requester ≢ target)
          × (removed ≡ (
            ok tt,
            record db {
              users = filter_out (λ u. u.id == target) db.users;
              wallets = filter_out (λ w. w.user_id == target) db.wallets;
            },
          )))
  unfolding remove_user find_user_by_id ensure_can_delete_user delete_user
  remove_user_outcome = elim (Option-cases (orm.find_one (λ u. u.id == target) db.users)) [
    | inl missing ↦ inl (ground arith, ground arith)
    | inr (u, found) ↦ elim (Bool-cases (requester == target)) [
      | inl self ↦ inl (ground arith, ground arith)
      | inr other ↦ elim (Bool-cases (is_admin role)) [
        | inr forbids ↦ inl (ground arith, ground arith)
        | inl admits ↦
            let users = orm.delete_lem (λ (u : Users). u.id == target) db.users in
            let wallets = orm.delete_lem (λ (w : Wallet). w.user_id == target) db.wallets in
            inr (admin_of role admits, ground (arith, other), ground arith)
      ]
    ]
  ]
