-- ===== src/Wallet/Coherence.antt =====
-- The cached balances (src/features/wallet/wallet.service.ts) while requests run one after another.
use lior_paris_wallet.Prelude.{
  ℕ, String, ◌≡◌, ◌≢◌, ◌∙◌, refl, sym, ap, subst, inl, inr, ◌==◌, ◌&&◌, some, Memᴰ, Option-cases,
  str_eq, eq_iff, arith,
}
use lior_paris_wallet.Prelude.Int.{◌+ℤ◌, ◌-ℤ◌}
use lior_paris_wallet.Prelude.Keys.{eq_of_key}
use lior_paris_wallet.Result.{Result, ok, err, ok_inj, not_found}
use lior_paris_wallet.Orm.{Orm}
use lior_paris_wallet.App.{App, Cache, CacheEntry, BalanceKey}
use lior_paris_wallet.Entities.{Db, Wallet, Transaction}
use lior_paris_wallet.Ledger.{IsAuditedDb, wallet_id_of}
use lior_paris_wallet.Ledger.Posting.{set_balance}
use lior_paris_wallet.Wallet.Repository.{find_by_user_id_and_currency}
use lior_paris_wallet.Wallet.Service.{SettleIds, balance_key, get_balance, settle_found}
use lior_paris_wallet.Wallet.Crediting.{Credited, credit_outcome}
use lior_paris_wallet.Transfers.Ownership.{untouched}
use lior_paris_wallet.Transfers.Between.{Transferred, between_outcome}
use lior_paris_wallet.Transfers.Safety.{Initiated, initiate_cases}
use lior_paris_wallet.Transfers.Service.{InitiateTransferDto, TransferIds, initiate_transfer}

-- The wallet is a row of the tables, and the one that the key asks for.
abbrev pub IsCurrent : App → BalanceKey → Wallet → Type 0
IsCurrent app key w =
    Memᴰ w app.db.wallets × (w.user_id ≡ key.user_id) × (w.currency ≡ key.currency)

-- Every cached balance is current.
abbrev pub IsCoherent : App → Type 0
IsCoherent app = (e : CacheEntry) → Memᴰ e app.cache → IsCurrent app e.key e.wallet

-- A wallet that another key asks for is another wallet.
other_wallet :
    (app : App) (key : BalanceKey) (w v : Wallet)
    → IsAuditedDb app.db
    → IsCurrent app key w
    → Memᴰ v app.db.wallets
    → key ≢ balance_key v.user_id v.currency
    → w.id ≢ v.id
other_wallet app key w v books (m, owner, currency) n other same =
    let one = eq_of_key wallet_id_of app.db.wallets books.wallet_ids m n same in
    let by_user : key.user_id ≡ v.user_id = sym owner ∙ ap (λ (u : Wallet). u.user_id) one in
    let by_currency : key.currency ≡ v.currency =
      sym currency ∙ ap (λ (u : Wallet). u.currency) one in
    other (λ i. record { user_id = by_user i; currency = by_currency i })

module _ (orm : Orm) (cache : Cache) where
  -- What a read answers is current, and leaves the tables and a coherent cache.
  abbrev pub IsReadOf : BalanceKey → App → Result Wallet × App → Type 0
  IsReadOf key app (r, app') =
      ((w : Wallet) → r ≡ ok w → IsCurrent app key w) × IsCoherent app' × (app'.db ≡ app.db)

  pub read_by :
      (user_id : ℕ) (currency : String) (app : App)
      → IsCoherent app
      → IsReadOf (balance_key user_id currency) app (get_balance orm cache user_id currency app)
  unfolding get_balance find_by_user_id_and_currency
  read_by user_id currency app coherent =
      let key = balance_key user_id currency in
      elim (Option-cases (cache.get key app.cache)) [
        | inr (w, hit) ↦
            let same : get_balance orm cache user_id currency app ≡ (ok w, app) = ground arith in
            let current : IsCurrent app key w = coherent _ (cache.get_lem key app.cache hit) in
            subst (IsReadOf key app) (sym same)
              (λ v e. subst (IsCurrent app key) (ok_inj e) current, coherent, refl)
        | inl miss ↦
            elim (Option-cases (
              orm.find_one (λ w. w.user_id == user_id && str_eq w.currency currency)
                app.db.wallets)) [
                  | inl gone ↦
                      let same : get_balance orm cache user_id currency app
                          ≡ (err (not_found "Wallet not found"), app) =
                        ground arith in
                      subst (IsReadOf key app) (sym same)
                        (λ v e. absurd (ground arith), coherent, refl)
                  | inr (w, found) ↦
                      let (m, fits) = orm.find_one-some _ _ found in
                      let text = eq_iff w.currency currency in
                      let current : IsCurrent app key w =
                        (m, ground (arith, fits), ground (arith, fits, text)) in
                      let same : get_balance orm cache user_id currency app
                          ≡ (ok w, record app { cache = cache.set key w app.cache }) =
                        ground arith in
                      subst (IsReadOf key app) (sym same) (
                        λ v e. subst (IsCurrent app key) (ok_inj e) current,
                        λ e n. elim (cache.set_lem key w app.cache n) [
                          | inl new ↦
                              subst (λ (d : CacheEntry). IsCurrent app d.key d.wallet) (sym new)
                                current
                          | inr old ↦ coherent e old
                        ],
                        refl,
                      )
                ]
      ]

  Credited-IsCoherent :
      (ids : SettleIds) (t : Transaction) {app app' : App}
      → IsAuditedDb app.db
      → IsCoherent app
      → Credited orm cache ids t app app'
      → IsCoherent app'
  Credited-IsCoherent ids t {app} {app'} books coherent c e m =
      let (n, other) =
        cache.del_lem (balance_key t.user_id t.currency) app.cache (rw c.evicted at m) in
      let current = coherent e n in
      let rows = ap (λ (db : Db). db.wallets) c.settled.result in
      let apart =
        other_wallet app e.key e.wallet c.target books current c.found
          (λ h. other (h ∙ (λ i. balance_key (c.owner i) (c.same_currency i)))) in
      (
        rw rows (
            untouched c.target.id (c.settled.wallet.balance +ℤ t.amount) e.wallet app.db.wallets
              apart current.0),
        current.1,
        current.2,
      )

  pub settled-IsCoherent :
      (ids : SettleIds) (t : Transaction) (app : App)
      → IsAuditedDb app.db
      → IsCoherent app
      → IsCoherent (settle_found orm cache ids (some t) app).1
  settled-IsCoherent ids t app books coherent = elim (credit_outcome orm cache ids t app) [
    | inl same ↦ rw same coherent
    | inr (done, c) ↦ Credited-IsCoherent ids t books coherent c
  ]

  module _ (ids : TransferIds) (user_id : ℕ) (email : String) (input : InitiateTransferDto)
      (app : App) (books : IsAuditedDb app.db) (coherent : IsCoherent app) where
    moved-IsCoherent :
        (app' : App) (r : Initiated orm cache ids user_id email input app)
        → Transferred orm cache ids user_id email input r.from_wallet r.to_wallet app app'
        → IsCoherent app'
    moved-IsCoherent app' r moved e m =
        let move = moved.moved in
        let from_key = balance_key user_id input.currency in
        let to_key = balance_key r.to_wallet.user_id input.currency in
        let (n, not_to) =
          cache.del_lem to_key (cache.del from_key app.cache) (rw moved.evicted at m) in
        let (k, not_from) = cache.del_lem from_key app.cache n in
        let current = coherent e k in
        let rows = ap (λ (db : Db). db.wallets) move.result in
        let not_sender : e.wallet.id ≢ move.sender.id = λ h.
          other_wallet app e.key e.wallet r.from_wallet books current r.from_found
            (λ g. not_from (g ∙ (λ i. balance_key (r.from_owner i) (r.from_currency i))))
            (h ∙ move.sender_named) in
        let not_receiver : e.wallet.id ≢ move.receiver.id = λ h.
          other_wallet app e.key e.wallet r.to_wallet books current r.to_found
            (λ g. not_to (g ∙ (λ i. balance_key r.to_wallet.user_id (r.to_currency i))))
            (h ∙ move.receiver_named) in
        (
          rw rows (
              untouched move.receiver.id (move.receiver.balance +ℤ input.amount) e.wallet
                (set_balance move.sender.id (move.sender.balance -ℤ input.amount) app.db.wallets)
                not_receiver
                (untouched move.sender.id (move.sender.balance -ℤ input.amount) e.wallet
                  app.db.wallets not_sender current.0)),
          current.1,
          current.2,
        )

    pub transferred-IsCoherent :
        IsCoherent (initiate_transfer orm cache ids user_id email input app).1
    transferred-IsCoherent = elim (initiate_cases orm cache ids user_id email input app) [
      | inl same ↦ rw same coherent
      | inr r ↦
          elim (between_outcome orm cache ids user_id email input r.from_wallet r.to_wallet app) [
            | inl (x, thrown, left) ↦ elim left [
              | inl same ↦ rw (r.runs, same) coherent
              | inr created ↦ rw (r.runs, created) coherent
            ]
            | inr (done, moved) ↦ rw r.runs (moved-IsCoherent _ r moved)
          ]
    ]
