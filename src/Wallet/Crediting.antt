-- ===== src/Wallet/Crediting.antt =====
-- What `settleByProviderRef` of src/features/wallet/wallet.service.ts does, from the transaction row
-- on that it has read. The row may be stale: other requests may have run since.
use lior_paris_wallet.Prelude.{
  false, ◌≡◌, ◌≢◌, ◌⊎◌, refl, none, some, Memᴰ, arith, inl, inr, Option-cases, ◌==◌, ◌&&◌, str_eq,
  eq_iff,
}
use lior_paris_wallet.Result.{Exception, Result, ok, err}
use lior_paris_wallet.Orm.{Orm}
use lior_paris_wallet.Prelude.Int.{pos, ◌+ℤ◌, ◌≤ℤ◌}
use lior_paris_wallet.Prelude.Rows.{any}
use lior_paris_wallet.App.{App, Cache}
use lior_paris_wallet.Entities.{
  ledger_clash, outbox_clash, Db, Wallet, LedgerEntry, LedgerEntryType, Transaction,
  TransactionStatus, OutboxEvent, deposit_succeeded,
}
use lior_paris_wallet.Users.Repository.{find_user_by_id}
use lior_paris_wallet.Wallet.Repository.{find_by_user_id_and_currency, settle_transaction}
use lior_paris_wallet.Wallet.Settlement.{
  settled_entry, settled_db, settle_transaction_ok, Settled, SettleOutcome, settle_outcome,
}
use lior_paris_wallet.Wallet.Service.{
  SettleIds, balance_key, build_outbox_payload, email_of, settle_found, invalidate_balance_cache,
}

module _ (orm : Orm) (cache : Cache) (ids : SettleIds) (t : Transaction) where
  -- The event that a settlement to the wallet `w` leaves in the outbox.
  abbrev pub credit_event : Wallet → App → OutboxEvent
  credit_event w app =
      build_outbox_payload ids deposit_succeeded w.id t.user_id t.amount t.currency
        (email_of (orm.find_one (λ u. u.id == t.user_id) app.db.users))

  pub record Credited (app app' : App) : Type 0 where
    pub was_pending : t.status ≡ TransactionStatus.pending
    pub target : Wallet
    pub found : Memᴰ target app.db.wallets
    pub owner : target.user_id ≡ t.user_id
    pub same_currency : target.currency ≡ t.currency
    pub settled :
        Settled ids.entry_id target.id t LedgerEntryType.deposit t.amount
          (credit_event target app)
          app.db
          app'.db
    pub evicted : app'.cache ≡ cache.del (balance_key t.user_id t.currency) app.cache

  abbrev pub CreditOutcome : App → Result Unit × App → Type 0
  CreditOutcome app (r, app') = (app' ≡ app) ⊎ ((r ≡ ok tt) × Credited app app')

  abbrev pub settlement : Wallet → App → Result LedgerEntry × Db
  settlement w app =
      settle_transaction orm ids.entry_id w.id t LedgerEntryType.deposit t.amount
        (credit_event w app) app.db

  -- `settle_found` on a pending row whose wallet is there, by the result of the transaction.
  module _ (w : Wallet) (app : App) (pending : t.status ≡ TransactionStatus.pending)
      (read : orm.find_one
          (λ v. v.user_id == t.user_id && str_eq v.currency t.currency)
          app.db.wallets
        ≡ some w) where
    pub settle_found_commits :
        (e : LedgerEntry) (db' : Db)
        → settlement w app ≡ (ok e, db')
        → settle_found orm cache ids (some t) app ≡ (
          ok tt,
          record { db = db'; cache = cache.del (balance_key t.user_id t.currency) app.cache },
        )
    unfolding settle_found find_by_user_id_and_currency find_user_by_id invalidate_balance_cache
    settle_found_commits e db' done = ground arith

    pub settle_found_throws :
        (x : Exception) (db' : Db)
        → settlement w app ≡ (err x, db')
        → settle_found orm cache ids (some t) app ≡ (err x, record app { db = db' })
    unfolding settle_found find_by_user_id_and_currency find_user_by_id
    settle_found_throws x db' failed = ground arith

    credit_by :
        (r : Result LedgerEntry × Db)
        → settlement w app ≡ r
        → SettleOutcome ids.entry_id w.id t LedgerEntryType.deposit t.amount
            (credit_event w app)
            app.db
            r
        → CreditOutcome app (settle_found orm cache ids (some t) app)
    credit_by (ok e, db') q done =
        let fits = (orm.find_one-some _ _ read).1 in
        rw (settle_found_commits e db' q) (
          inr (
            refl,
            record {
              was_pending = pending;
              target = w;
              found = (orm.find_one-some _ _ read).0;
              owner = ground (arith, fits);
              same_currency = ground (arith, fits, eq_iff w.currency t.currency);
              settled = done;
              evicted = refl;
            },
          ))
    credit_by (err x, db') q same = rw (settle_found_throws x db' q, same) (inl refl)

  pub settle_found_skips :
      (app : App)
      → t.status ≢ TransactionStatus.pending
      → settle_found orm cache ids (some t) app ≡ (ok tt, app)
  unfolding settle_found
  settle_found_skips app h = ground arith

  pub settle_found_no_wallet :
      (app : App)
      → t.status ≡ TransactionStatus.pending
      → orm.find_one (λ v. v.user_id == t.user_id && str_eq v.currency t.currency) app.db.wallets
        ≡ none
      → settle_found orm cache ids (some t) app ≡ (ok tt, app)
  unfolding settle_found find_by_user_id_and_currency
  settle_found_no_wallet app pending missing = ground arith

  pub status_cases :
      (s : TransactionStatus) → (s ≡ TransactionStatus.pending) ⊎ (s ≢ TransactionStatus.pending)
  status_cases TransactionStatus.pending = inl refl
  status_cases TransactionStatus.completed = inr (λ e. cc)
  status_cases TransactionStatus.failed = inr (λ e. cc)

  -- From a row, stale or not: nothing changes at all, or the row was read as pending, its owner has
  -- a wallet in its currency, that wallet is settled in one transaction and its cached balance goes.
  pub credit_outcome : (app : App) → CreditOutcome app (settle_found orm cache ids (some t) app)
  credit_outcome app = elim (status_cases t.status) [
    | inr over ↦ rw (settle_found_skips app over) (inl refl)
    | inl pending ↦
        elim (Option-cases (
          orm.find_one (λ v. v.user_id == t.user_id && str_eq v.currency t.currency)
            app.db.wallets)) [
              | inl missing ↦ rw (settle_found_no_wallet app pending missing) (inl refl)
              | inr (w, read) ↦ credit_by w app pending read (settlement w app) refl (
                  settle_outcome ids.entry_id w.id t LedgerEntryType.deposit t.amount orm
                    (credit_event w app) app.db)
            ]
  ]

  -- A pending deposit goes through: the result is the settled tables and the evicted balance.
  pub settle_found_ok :
      (w v : Wallet) (app : App)
      → t.status ≡ TransactionStatus.pending
      → orm.find_one (λ u. u.user_id == t.user_id && str_eq u.currency t.currency) app.db.wallets
        ≡ some w
      → orm.find_one (λ u. u.id == w.id) app.db.wallets ≡ some v
      → pos 0 ≤ℤ v.balance +ℤ t.amount
      → any
          (ledger_clash (settled_entry ids.entry_id w.id t LedgerEntryType.deposit t.amount v))
          app.db.ledger
        ≡ false
      → any (outbox_clash (credit_event w app)) app.db.outbox ≡ false
      → settle_found orm cache ids (some t) app ≡ (
        ok tt,
        record {
          db =
              settled_db ids.entry_id w.id t LedgerEntryType.deposit t.amount
                (credit_event w app)
                v
                app.db;
          cache = cache.del (balance_key t.user_id t.currency) app.cache;
        },
      )
  settle_found_ok w v app pending read locked covered free new_event =
      settle_found_commits w app pending read _ _ (
        settle_transaction_ok ids.entry_id w.id t LedgerEntryType.deposit t.amount orm
          (credit_event w app) app.db v locked covered free new_event)
