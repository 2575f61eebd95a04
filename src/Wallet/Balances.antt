-- ===== src/Wallet/Balances.antt =====
-- The cached balance (`getBalance` and `invalidateBalanceCache` of src/features/wallet/wallet.service.ts)
-- after money has moved.
use lior_paris_wallet.Prelude.{
  ℕ, String, ◌≡◌, ◌≢◌, ◌⊎◌, ◌==◌, ◌&&◌, refl, ap, inl, inr, true, none, some, Memᴰ, Option-cases,
  arith, str_eq, eq_iff,
}
use lior_paris_wallet.Prelude.Int.{◌+ℤ◌}
use lior_paris_wallet.Prelude.Rows.{any-false, mem-set_where}
use lior_paris_wallet.Result.{ok}
use lior_paris_wallet.Orm.{Orm}
use lior_paris_wallet.App.{App, Cache, CacheEntry}
use lior_paris_wallet.Entities.{Db, Wallet, Transaction}
use lior_paris_wallet.Wallet.Repository.{find_by_user_id_and_currency}
use lior_paris_wallet.Wallet.Crediting.{Credited, credit_outcome}
use lior_paris_wallet.Wallet.Service.{SettleIds, balance_key, get_balance, settle_found}

module _ (orm : Orm) (cache : Cache) where
  -- The wallet of a user in a currency, as the tables have it.
  abbrev pub IsOwned : ℕ → String → App → Wallet → Type 0
  IsOwned user_id currency app w =
      Memᴰ w app.db.wallets × (w.user_id ≡ user_id) × (w.currency ≡ currency)

  module _ (user_id : ℕ) (currency : String) (app : App)
      (evicted : (e : CacheEntry) → Memᴰ e app.cache → e.key ≢ balance_key user_id currency) where
    missed : cache.get (balance_key user_id currency) app.cache ≡ none
    missed = elim (Option-cases (cache.get (balance_key user_id currency) app.cache)) [
      | inl miss ↦ miss
      | inr (w, hit) ↦ absurd (evicted _ (cache.get_lem _ _ hit) refl)
    ]

    -- Where no entry has the key, the balance comes from the tables.
    get_balance-fresh :
        (w : Wallet)
        → IsOwned user_id currency app w
        → (v : Wallet) × IsOwned user_id currency app v
          × ((get_balance orm cache user_id currency app).0 ≡ ok v)
    unfolding get_balance find_by_user_id_and_currency
    get_balance-fresh w (m, owner, same) =
        let miss = missed in
        elim (Option-cases
          (orm.find_one (λ w. w.user_id == user_id && str_eq w.currency currency) app.db.wallets)) [
            | inl gone ↦
                let unfit =
                  any-false (λ (w : Wallet). w.user_id == user_id && str_eq w.currency currency)
                    app.db.wallets (orm.find_one-none _ _ gone) m in
                let text = eq_iff w.currency currency in
                absurd (ground (arith, unfit, text, owner, same))
            | inr (v, found) ↦
                let (n, fits) = orm.find_one-some _ _ found in
                let text = eq_iff v.currency currency in
                (v, (n, ground (arith, fits), ground (arith, fits, text)), ground arith)
          ]

  -- The wallet that is credited is still there, with another balance.
  IsOwned-after :
      (ids : SettleIds) (t : Transaction) {app app' : App}
      → Credited orm cache ids t app app'
      → (w : Wallet) × IsOwned t.user_id t.currency app' w
  IsOwned-after ids t {app} {app'} c =
      let credit = λ (v : Wallet). record v { balance = c.settled.wallet.balance +ℤ t.amount } in
      let after =
        mem-set_where (λ (v : Wallet). v.id == c.target.id) credit app.db.wallets c.found in
      let hit : (c.target.id == c.target.id) ≡ true = ground arith in
      let wallets = ap (λ (db : Db). db.wallets) c.settled.result in
      (credit c.target, (rw wallets (rw hit at after), c.owner, c.same_currency))

  -- A settlement that changes anything evicts the balance: the next `getBalance` of its owner in its
  -- currency returns a wallet as the tables have it after the settlement.
  get_balance-settle_found :
      (ids : SettleIds) (t : Transaction) (app : App)
      → let app' = (settle_found orm cache ids (some t) app).1 in
        (app' ≡ app)
        ⊎ ((v : Wallet) × IsOwned t.user_id t.currency app' v
            × ((get_balance orm cache t.user_id t.currency app').0 ≡ ok v))
  get_balance-settle_found ids t app = elim (credit_outcome orm cache ids t app) [
    | inl same ↦ inl same
    | inr (done, c) ↦
        let (w, owned) = IsOwned-after ids t c in
        inr (
          get_balance-fresh t.user_id t.currency (settle_found orm cache ids (some t) app).1
            (λ e m. (cache.del_lem _ _ (rw c.evicted at m)).1) w owned)
  ]
