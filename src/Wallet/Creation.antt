-- ===== src/Wallet/Creation.antt =====
-- The opening of wallets (`ensureWallet` of src/features/wallet/wallet.repository.ts).
use lior_paris_wallet.Prelude.{
  ℕ, String, ◌≡◌, ◌⊎◌, ◌==◌, ◌&&◌, refl, inl, inr, Option-cases, Memᴰ, arith, str_eq, eq_iff, [],
  ◌∷◌, ◌++◌,
}
use mathlib.Core.List.Memᴰ
use lior_paris_wallet.Prelude.Int.{pos}
use lior_paris_wallet.Prelude.Rows.{any-false}
use lior_paris_wallet.Result.{ok, err, query_failed}
use lior_paris_wallet.Orm.{Orm}
use lior_paris_wallet.Orm.Laws.{insert_cases}
use lior_paris_wallet.Entities.{Db, Wallet, wallet_clash}
use lior_paris_wallet.Wallet.Repository.{find_by_user_id_and_currency, ensure_wallet}

module _ (orm : Orm) (user_id : ℕ) (currency : String) where
  -- A wallet of the user in the currency.
  abbrev pub IsWalletOf : Wallet → Db → Type 0
  IsWalletOf w db = Memᴰ w db.wallets × (w.user_id ≡ user_id) × (w.currency ≡ currency)

  -- Where there is such a wallet, the call returns one and changes nothing.
  ensure_wallet-there :
      (id : ℕ) (wallet_tag : String) (db : Db) (w : Wallet)
      → IsWalletOf w db
      → (v : Wallet) × IsWalletOf v db
        × (ensure_wallet orm id user_id currency wallet_tag db ≡ (ok v, db))
  unfolding ensure_wallet find_by_user_id_and_currency
  ensure_wallet-there id wallet_tag db w (m, owner, same) =
      elim (Option-cases
        (orm.find_one (λ w. w.user_id == user_id && str_eq w.currency currency) db.wallets)) [
          | inl gone ↦
              let unfit =
                any-false (λ (w : Wallet). w.user_id == user_id && str_eq w.currency currency)
                  db.wallets (orm.find_one-none _ _ gone) m in
              let text = eq_iff w.currency currency in
              absurd (ground (arith, unfit, text, owner, same))
          | inr (v, found) ↦
              let (n, fits) = orm.find_one-some _ _ found in
              let text = eq_iff v.currency currency in
              (v, (n, ground (arith, fits), ground (arith, fits, text)), ground arith)
        ]

  -- The wallet that a call creates.
  abbrev new_wallet : ℕ → String → Wallet
  new_wallet id wallet_tag = record {
    id = id;
    user_id = user_id;
    balance = pos 0;
    currency = currency;
    wallet_tag = wallet_tag;
  }

  -- A call that returns leaves the user with a wallet in the currency, and any further call, with
  -- whatever uuid and tag, returns a wallet of theirs and changes nothing; one that throws changes
  -- nothing.
  pub ensure_wallet_outcome :
      (id : ℕ) (wallet_tag : String) (db : Db)
      → let (r, db') = ensure_wallet orm id user_id currency wallet_tag db in
        ((r ≡ err query_failed) × (db' ≡ db))
        ⊎ ((w : Wallet) × (r ≡ ok w)
            × IsWalletOf w db'
            × ((id' : ℕ) (tag' : String)
                → (v : Wallet) × IsWalletOf v db'
                  × (ensure_wallet orm id' user_id currency tag' db' ≡ (ok v, db'))))
  unfolding ensure_wallet find_by_user_id_and_currency
  ensure_wallet_outcome id wallet_tag db =
      elim (Option-cases
        (orm.find_one (λ w. w.user_id == user_id && str_eq w.currency currency) db.wallets)) [
          | inr (v, found) ↦
              let (n, fits) = orm.find_one-some _ _ found in
              let text = eq_iff v.currency currency in
              let own : IsWalletOf v db = (n, ground (arith, fits), ground (arith, fits, text)) in
              let same : ensure_wallet orm id user_id currency wallet_tag db ≡ (ok v, db) =
                ground arith in
              rw same (inr (v, refl, own, λ id' tag'. ensure_wallet-there id' tag' db v own))
          | inl missing ↦
              elim (insert_cases orm wallet_clash (new_wallet id wallet_tag) db.wallets) [
                | inl taken ↦ inl (ground arith, ground arith)
                | inr (free, created) ↦
                    let w = new_wallet id wallet_tag in
                    let db' : Db = record db { wallets = db.wallets ++ w ∷ [] } in
                    let own : IsWalletOf w db' =
                      (Memᴰ.append_right db.wallets (Memᴰ.head refl), refl, refl) in
                    let same : ensure_wallet orm id user_id currency wallet_tag db ≡ (ok w, db') =
                      ground arith in
                    rw same (inr (w, refl, own, λ id' tag'. ensure_wallet-there id' tag' db' w own))
              ]
        ]
