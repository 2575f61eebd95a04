-- ===== src/Wallet/Paid.antt =====
-- A deposit that has been paid for (src/features/wallet, src/features/payments).
use lior_paris_wallet.Prelude.{
  ℕ, String, ◌≡◌, ◌≢◌, ◌∙◌, ◌==◌, refl, ap, inl, inr, true, false, some, [], ◌∷◌, ◌++◌, Memᴰ,
  Option-cases, arith,
}
use lior_paris_wallet.Prelude.Int.{pos, ◌≤ℤ◌, ◌+ℤ◌, int_laws}
use lior_paris_wallet.Prelude.Keys.{eq_of_key}
use lior_paris_wallet.Prelude.Rows.{any, any-false, mem-set_where}
use lior_paris_wallet.Result.{ok}
use lior_paris_wallet.Orm.{Orm}
use lior_paris_wallet.App.{App, Cache, CacheEntry}
use lior_paris_wallet.Entities.{
  Wallet, Transaction, TransactionStatus, LedgerEntryType, ledger_clash, outbox_clash,
}
use lior_paris_wallet.Ledger.{IsAuditedDb, wallet_id_of}
use lior_paris_wallet.CircuitBreaker.{Breaker}
use lior_paris_wallet.Payments.{StripeClient, CheckoutSession}
use lior_paris_wallet.Wallet.Service.{DepositDto, SettleIds, balance_key, deposit, settle_found}
use lior_paris_wallet.Wallet.Settlement.{settled_entry, settled_db}
use lior_paris_wallet.Wallet.Crediting.{credit_event, settle_found_ok}
use lior_paris_wallet.Wallet.Webhook.{ConstructEvent, handle_webhook}
use lior_paris_wallet.Wallet.Payment.{
  stripe_registry, IsPayable, IsPaidCall, referred, awaiting, deposit_awaits, webhook_settles,
  referred_stored,
}
use lior_paris_wallet.Transfers.Ownership.{untouched}

module _ (orm : Orm) (cache : Cache) (breaker : Breaker) (stripe : StripeClient) (id user_id : ℕ)
    (input : DepositDto) (app : App) (w : Wallet) (session : CheckoutSession)
    (payable : IsPayable orm cache breaker stripe id user_id input app w session) where
  -- The deposit's row, as the webhook finds it.
  abbrev paid : Transaction
  paid = referred orm cache breaker stripe id user_id input app session.id

  abbrev before : App
  before = awaiting orm cache breaker stripe id user_id input app session.id

  -- A deposit that has arrived: its wallet has the amount more, the other wallets stay, its row is
  -- completed, an entry of the ledger and an event of the outbox tell of it, and no balance of the
  -- wallet is cached.
  pub record HasArrived (ids : SettleIds) (app' : App) : Type 0 where
    pub credited : Memᴰ (record w { balance = w.balance +ℤ input.amount }) app'.db.wallets
    pub others : (v : Wallet) → Memᴰ v app.db.wallets → v.id ≢ w.id → Memᴰ v app'.db.wallets
    pub completed : Memᴰ (record paid { status = TransactionStatus.completed }) app'.db.transactions
    pub booked :
        app'.db.ledger
        ≡ app.db.ledger
          ++ settled_entry ids.entry_id w.id paid LedgerEntryType.deposit input.amount w ∷ []
    pub announced : app'.db.outbox ≡ app.db.outbox ++ credit_event orm cache ids paid w app ∷ []
    pub evicted : (e : CacheEntry) → Memᴰ e app'.cache → e.key ≢ balance_key user_id input.currency

  locked : IsAuditedDb app.db → orm.find_one (λ v. v.id == w.id) app.db.wallets ≡ some w
  locked books =
      let m = (orm.find_one-some _ _ payable.owned).0 in
      elim (Option-cases (orm.find_one (λ v. v.id == w.id) app.db.wallets)) [
        | inr (v, found) ↦
            let (n, fits) = orm.find_one-some _ _ found in
            let same : v ≡ w =
              eq_of_key wallet_id_of app.db.wallets books.wallet_ids n m (ground (arith, fits)) in
            found ∙ ap (λ (u : Wallet). some u) same
        | inl missing ↦
            let unfit =
              any-false (λ (v : Wallet). v.id == w.id) app.db.wallets
                (orm.find_one-none _ _ missing) m in
            absurd (ground (arith, unfit))
      ]

  settled :
      (ids : SettleIds)
      → IsAuditedDb app.db
      → pos 1 ≤ℤ input.amount
      → any
          (ledger_clash
            (settled_entry ids.entry_id w.id paid LedgerEntryType.deposit input.amount w))
          app.db.ledger
        ≡ false
      → any (outbox_clash (credit_event orm cache ids paid w app)) app.db.outbox ≡ false
      → settle_found orm cache ids (some paid) before ≡ (
        ok tt,
        record {
          db =
              settled_db ids.entry_id w.id paid LedgerEntryType.deposit input.amount
                (credit_event orm cache ids paid w app)
                w
                before.db;
          cache = cache.del (balance_key user_id input.currency) app.cache;
        },
      )
  settled ids books valid new_entry new_event =
      let covered = books.covered w (orm.find_one-some _ _ payable.owned).0 in
      settle_found_ok orm cache ids paid w w before refl payable.owned (locked books)
        (omega (int_laws, covered, valid)) new_entry new_event

  -- A deposit for which Stripe creates a session, and then the signed call of the webhook that the session
  -- is paid: the request answers the session's URL, the call returns, and the deposit has arrived. The
  -- books are audited, the amount is valid and the keys of the two new rows are free.
  pub deposit-HasArrived :
      (construct_event : ConstructEvent) (secret body signature : String) (ids : SettleIds)
      → IsPaidCall orm cache breaker stripe id user_id input app w session payable construct_event
          secret body signature
      → IsAuditedDb app.db
      → pos 1 ≤ℤ input.amount
      → any
          (ledger_clash
            (settled_entry ids.entry_id w.id paid LedgerEntryType.deposit input.amount w))
          app.db.ledger
        ≡ false
      → any (outbox_clash (credit_event orm cache ids paid w app)) app.db.outbox ≡ false
      → let (answer, app1) =
          deposit orm cache (stripe_registry breaker stripe) id user_id input app in
        let (r, app2) =
          handle_webhook orm cache construct_event secret ids body (some signature) app1 in
        (answer ≡ ok (some session.url)) × (r ≡ ok tt) × HasArrived ids app2
  deposit-HasArrived construct_event secret body signature ids call books valid new_entry
        new_event =
      let asked = deposit_awaits orm cache breaker stripe id user_id input app w session payable in
      let ran =
        webhook_settles orm cache breaker stripe id user_id input app w session payable
          construct_event secret body signature ids call in
      let done = settled ids books valid new_entry new_event in
      let m = (orm.find_one-some _ _ payable.owned).0 in
      let hit : (w.id == w.id) ≡ true = ground arith in
      let mine : (id == id) ≡ true = ground arith in
      let credit =
        mem-set_where (λ (v : Wallet). v.id == w.id)
          (λ v. record v { balance = w.balance +ℤ input.amount }) app.db.wallets m in
      let row =
        mem-set_where (λ (t : Transaction). t.id == id)
          (λ t. record t { status = TransactionStatus.completed }) _
          (referred_stored orm cache breaker stripe id user_id input app w session payable) in
      rw asked (
        rw (ran ∙ done) (
          refl,
          refl,
          record {
            credited = rw hit at credit;
            others =
                λ v n apart. untouched w.id (w.balance +ℤ input.amount) v app.db.wallets apart n;
            completed = rw mine at row;
            booked = refl;
            announced = refl;
            evicted = λ e n. (cache.del_lem _ _ n).1;
          },
        ))
