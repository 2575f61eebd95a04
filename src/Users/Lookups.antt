-- ===== src/Users/Lookups.antt =====
-- What a look-up of a user answers (src/features/users/users.service.ts).
use lior_paris_wallet.Prelude.{
  ℕ, ◌≡◌, ◌≢◌, ◌↔◌, ◌⊎◌, inl, inr, refl, Bool, false, none, some, List, Memᴰ, Option-cases, ◌==◌,
  ==_iff, arith,
}
use lior_paris_wallet.Prelude.Rows.{filter_in, filter_in-mem, mem-filter_in, any-false}
use lior_paris_wallet.Result.{ok, err, not_found}
use lior_paris_wallet.Orm.{Orm}
use lior_paris_wallet.Entities.{Db, Users, Wallet}
use lior_paris_wallet.Users.Repository.{find_user_by_id_with_wallets}
use lior_paris_wallet.Users.Service.{find_user, map_result, no_user}

module _ (orm : Orm) (id : ℕ) (db : Db) where
  abbrev is_of_user : Wallet → Bool
  is_of_user w = w.user_id == id

  -- The rows that the relation holds are the wallets of the user, all of them and no other.
  relation_iff :
      (w : Wallet)
      → Memᴰ w (filter_in is_of_user (orm.listed db.wallets))
        ↔ (Memᴰ w db.wallets × (w.user_id ≡ id))
  relation_iff w = (
    λ m.
        let (n, h) = filter_in-mem is_of_user (orm.listed db.wallets) m in
        (orm.listed-mem db.wallets n, (==_iff w.user_id id).0 h),
    λ m.
        mem-filter_in is_of_user (orm.listed db.wallets) (orm.mem-listed db.wallets m.0)
          ((==_iff w.user_id id).1 m.1),
  )

  -- A look-up of a user changes nothing. It throws if no user has the id; it answers with a user of the
  -- id and with exactly the wallets of that user if one has.
  find_user_outcome :
      ((find_user orm id db ≡ (err (not_found no_user), db))
        × ((u : Users) → Memᴰ u db.users → u.id ≢ id))
      ⊎ ((user : Users) × (wallets : List Wallet) × Memᴰ user db.users
          × (user.id ≡ id)
          × (find_user orm id db ≡ (ok (map_result user (some wallets) none), db))
          × ((w : Wallet) → Memᴰ w wallets ↔ (Memᴰ w db.wallets × (w.user_id ≡ id))))
  unfolding find_user find_user_by_id_with_wallets
  find_user_outcome = elim (Option-cases (orm.find_one (λ u. u.id == id) db.users)) [
    | inl e ↦
        let unfit = orm.find_one-none (λ u. u.id == id) db.users e in
        inl (
          rw e refl,
          λ u m same.
              let other : (u.id == id) ≡ false =
                any-false (λ (u : Users). u.id == id) db.users unfit m in
              ground arith,
        )
    | inr (user, e) ↦
        let (m, h) = orm.find_one-some (λ u. u.id == id) db.users e in
        inr (
          user,
          filter_in is_of_user (orm.listed db.wallets),
          m,
          ground arith,
          rw e refl,
          relation_iff,
        )
  ]
