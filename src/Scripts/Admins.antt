-- ===== src/Scripts/Admins.antt =====
-- What the database part of the seeding script (scripts/seed-admin.ts) does on every branch.
use mathlib.Core.List.Memᴰ
use lior_paris_wallet.Prelude.{
  String, ◌≡◌, refl, sym, ap, subst, ◌∙◌, ◌⊎◌, inl, inr, true, false, none, [], ◌∷◌, ◌++◌, Memᴰ,
  str_eq, eq_iff, Option-cases, Bool-cases, arith, ◌==◌, if◌then◌else◌,
}
use lior_paris_wallet.Prelude.Rows.{
  any-false, mem-snoc, set_where-mem, mem-set_where, set_where, HasUniqueKeys,
}
use lior_paris_wallet.Prelude.Keys.{eq_of_key}
use lior_paris_wallet.Result.{Result, ok, err, query_failed}
use lior_paris_wallet.Orm.{Orm}
use lior_paris_wallet.Orm.Laws.{insert_cases, save_cases}
use lior_paris_wallet.Entities.{Db, Users, UserRole, users_clash, wallet_clash}
use lior_paris_wallet.Auth.{Argon}
use lior_paris_wallet.Scripts.SeedAdmin.{
  SeedIds, new_admin, admin_wallet, promoted, promote, create_admin, seed, seed_by_email,
}

-- Somebody has the email, and whoever has it is an admin.
pub record HasAdmin (email : String) (db : Db) : Type 0 where
  pub admin : Users
  pub admin-mem : Memᴰ admin db.users
  pub admin-email : admin.email ≡ email
  pub only : (u : Users) → Memᴰ u db.users → u.email ≡ email → u.role ≡ UserRole.admin

module _ (orm : Orm) (argon : Argon) (ids : SeedIds) (name email password : String) where
  -- Where there is an admin, the script changes nothing.
  pub seed_again :
      (db : Db)
      → HasAdmin email db
      → seed_by_email orm argon ids name email password db ≡ (ok tt, db)
  unfolding seed_by_email seed promote
  seed_again db has = elim (Option-cases (orm.find_one (λ u. str_eq u.email email) db.users)) [
    | inl e ↦
        let unfit = orm.find_one-none (λ (u : Users). str_eq u.email email) db.users e in
        let other : str_eq has.admin.email email ≡ false =
          any-false (λ (u : Users). str_eq u.email email) db.users unfit has.admin-mem in
        let same = (eq_iff has.admin.email email).1 has.admin-email in
        absurd (let c : true ≡ false = sym same ∙ other in ground arith)
    | inr (user, e) ↦
        let (m, h) = orm.find_one-some (λ (u : Users). str_eq u.email email) db.users e in
        let role : user.role ≡ UserRole.admin = has.only user m ((eq_iff user.email email).0 h) in
        rw (e, role) refl
  ]

  -- The user is refused, or is in the table when the creation ends, with or without a wallet.
  create_cases :
      (db : Db)
      → (create_admin orm argon ids name email password db ≡ (err query_failed, db))
        ⊎ ((create_admin orm argon ids name email password db).1.users
            ≡ db.users ++ new_admin argon ids name email password ∷ [])
  unfolding create_admin
  create_cases db =
      elim (insert_cases orm users_clash (new_admin argon ids name email password) db.users) [
        | inl taken ↦ inl (ground arith)
        | inr (free, put) ↦ elim (insert_cases orm wallet_clash (admin_wallet ids) db.wallets) [
          | inl full ↦ inr (ground arith)
          | inr (room, opened) ↦ inr (ground arith)
        ]
      ]

  pub added-HasAdmin :
      (db db' : Db)
      → orm.find_one (λ u. str_eq u.email email) db.users ≡ none
      → db'.users ≡ db.users ++ new_admin argon ids name email password ∷ []
      → HasAdmin email db'
  added-HasAdmin db db' e same = record {
    admin = new_admin argon ids name email password;
    admin-mem = rw same (Memᴰ.append_right db.users (Memᴰ.head refl));
    admin-email = refl;
    only = λ u m h. elim (mem-snoc db.users (rw same at m)) [
      | inl old ↦
          let unfit = orm.find_one-none (λ (v : Users). str_eq v.email email) db.users e in
          let other : str_eq u.email email ≡ false =
            any-false (λ (v : Users). str_eq v.email email) db.users unfit old in
          let c : true ≡ false = sym ((eq_iff u.email email).1 h) ∙ other in absurd (ground arith)
      | inr new ↦ ap (λ (v : Users). v.role) new
    ];
  }

  stayed-HasAdmin :
      (db : Db) (user : Users)
      → HasUniqueKeys (λ (u : Users). u.email) db.users
      → Memᴰ user db.users
      → user.email ≡ email
      → user.role ≡ UserRole.admin
      → HasAdmin email db
  stayed-HasAdmin db user unique m e r = record {
    admin = user;
    admin-mem = m;
    admin-email = e;
    only = λ u n same.
        let one = eq_of_key (λ (u : Users). u.email) db.users unique n m (same ∙ sym e) in
        ap (λ (u : Users). u.role) one ∙ r;
  }

  -- Of the changed rows, the one with the email is the promoted one.
  changed-role :
      (db : Db) (user a u : Users)
      → HasUniqueKeys (λ (b : Users). b.email) db.users
      → Memᴰ user db.users
      → user.email ≡ email
      → Memᴰ a db.users
      → u ≡ (if a.id == user.id then promoted ids user else a)
      → u.email ≡ email
      → u.role ≡ UserRole.admin
  changed-role db user a u unique m e old is h = elim (Bool-cases (a.id == user.id)) [
    | inl changed ↦
        let same : u ≡ promoted ids user = ground arith in ap (λ (v : Users). v.role) same
    | inr kept ↦
        let same : u ≡ a = ground arith in
        let one : a ≡ user =
          eq_of_key (λ (v : Users). v.email) db.users unique old m
            (sym (ap (λ (v : Users). v.email) same) ∙ h ∙ sym e) in
        let c : a.id ≡ user.id = ap (λ (v : Users). v.id) one in absurd (ground arith)
  ]

  promoted-HasAdmin :
      (db db' : Db) (user : Users)
      → HasUniqueKeys (λ (u : Users). u.email) db.users
      → Memᴰ user db.users
      → user.email ≡ email
      → db'.users ≡ set_where (λ b. b.id == user.id) (λ b. promoted ids user) db.users
      → HasAdmin email db'
  promoted-HasAdmin db db' user unique m e same = record {
    admin = promoted ids user;
    admin-mem =
        let hit : (user.id == user.id) ≡ true = ground arith in
        let t =
          mem-set_where (λ (b : Users). b.id == user.id) (λ b. promoted ids user) db.users m in
        rw same (rw hit at t);
    admin-email = e;
    only = λ u n h.
        let (a, old, is) =
          set_where-mem (λ (b : Users). b.id == user.id) (λ b. promoted ids user) db.users
            (rw same at n) in
        changed-role db user a u unique m e old is h;
  }

  promote_cases :
      (db : Db) (user : Users) (role : UserRole)
      → user.role ≡ role
      → HasUniqueKeys (λ (u : Users). u.email) db.users
      → Memᴰ user db.users
      → user.email ≡ email
      → (promote orm argon ids user role db ≡ (err query_failed, db))
        ⊎ HasAdmin email (promote orm argon ids user role db).1
  unfolding promote
  promote_cases db user UserRole.admin r unique m e = inr (stayed-HasAdmin db user unique m e r)
  promote_cases db user UserRole.user r unique m e =
      elim (save_cases orm users_clash (promoted ids user) db.users (λ (u : Users). u.id)) [
        | inl taken ↦ inl (ground arith)
        | inr put ↦
            let after = record db {
              users = set_where (λ (b : Users). b.id == user.id) (λ b. promoted ids user) db.users;
            } in
            let ran : promote orm argon ids user UserRole.user db ≡ (ok tt, after) = ground arith in
            inr (
              subst (λ (r : Result Unit × Db). HasAdmin email r.1) (sym ran)
                (promoted-HasAdmin db after user unique m e refl))
      ]

  -- The script throws at the first write and changes nothing, or whoever has the email is an admin.
  pub seed_cases :
      (db : Db)
      → HasUniqueKeys (λ (u : Users). u.email) db.users
      → (seed_by_email orm argon ids name email password db ≡ (err query_failed, db))
        ⊎ HasAdmin email (seed_by_email orm argon ids name email password db).1
  unfolding seed_by_email seed
  seed_cases db unique = elim (Option-cases (orm.find_one (λ u. str_eq u.email email) db.users)) [
    | inl e ↦ elim (create_cases db) [
      | inl refused ↦ inl (rw e refused)
      | inr added ↦ inr (rw e (added-HasAdmin db _ e added))
    ]
    | inr (user, e) ↦
        let (m, h) = orm.find_one-some (λ (u : Users). str_eq u.email email) db.users e in
        let mine = (eq_iff user.email email).0 h in
        elim (promote_cases db user user.role refl unique m mine) [
          | inl refused ↦ inl (rw e refused)
          | inr has ↦ inr (rw e has)
        ]
  ]
