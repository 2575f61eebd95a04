-- ===== src/Wallet/Repository.antt =====
-- src/features/wallet/wallet.repository.ts. The uuids of new rows and the tag that
-- `generateWalletTag` draws are arguments.
use lior_paris_wallet.Prelude.{ℕ, String, Bool, false, ◌&&◌, Option, none, some, ◌==◌, str_eq}
use lior_paris_wallet.Prelude.Int.{ℤ, pos, ◌+ℤ◌, ltb_ℤ}
use lior_paris_wallet.Result.{
  Action, pure, gets, or_throw, modify, throw_if, ◌>>=◌, ◌>>◌, bad_request, type_error,
}
use lior_paris_wallet.Orm.{Orm}
use lior_paris_wallet.Store.{save_wallet, save_transaction, save_ledger_entry, save_outbox_event}
use lior_paris_wallet.Entities.{
  Db, Wallet, LedgerEntry, LedgerEntryType, Transaction, TransactionStatus, OutboxEvent,
}

-- `where: { provider_ref }`: a row with no reference fits no text.
unfoldable pub has_provider_ref : String → Transaction → Bool
has_provider_ref ref t = elim t.provider_ref [ none ↦ false | some r ↦ str_eq r ref ]

module _ (orm : Orm) where
  unfoldable pub find_by_user_id_and_currency : ℕ → String → Action Db (Option Wallet)
  find_by_user_id_and_currency user_id currency =
      gets (λ db. orm.find_one (λ w. w.user_id == user_id && str_eq w.currency currency) db.wallets)

  unfoldable pub find_by_wallet_tag : String → Action Db (Option Wallet)
  find_by_wallet_tag tag = gets (λ db. orm.find_one (λ w. str_eq w.wallet_tag tag) db.wallets)

  unfoldable pub find_transaction_by_idempotency_key : String → Action Db (Option Transaction)
  find_transaction_by_idempotency_key key =
      gets (λ db. orm.find_one (λ t. str_eq t.idempotency_key key) db.transactions)

  unfoldable pub find_transaction_by_provider_ref : String → Action Db (Option Transaction)
  find_transaction_by_provider_ref ref =
      gets (λ db. orm.find_one (has_provider_ref ref) db.transactions)

  unfoldable pub update_transaction_provider_ref : ℕ → String → Action Db Unit
  update_transaction_provider_ref id ref = modify λ db. record db {
    transactions =
        orm.update (λ t. t.id == id) (λ t. record t { provider_ref = some ref }) db.transactions;
  }

  existing_or_new : Option Wallet → Wallet → Action Db Wallet
  existing_or_new (some existing) w = pure existing
  existing_or_new none w = save_wallet orm w

  unfoldable pub ensure_wallet :
      (id user_id : ℕ) → String → (wallet_tag : String) → Action Db Wallet
  unfolding existing_or_new find_by_user_id_and_currency
  ensure_wallet id user_id currency wallet_tag = do
    existing ← find_by_user_id_and_currency user_id currency
    existing_or_new existing (record {
      id = id;
      user_id = user_id;
      balance = pos 0;
      currency = currency;
      wallet_tag = wallet_tag;
    })

  -- `create(data)` takes the column defaults for what `data` leaves out.
  unfoldable pub create_transaction :
      (id user_id : ℕ)
      → ℤ
      → (currency payment_method idempotency_key : String) → Action Db Transaction
  create_transaction id user_id amount currency payment_method idempotency_key =
      save_transaction orm (record {
        id = id;
        user_id = user_id;
        amount = amount;
        currency = currency;
        payment_method = payment_method;
        status = TransactionStatus.pending;
        idempotency_key = idempotency_key;
        provider_ref = none;
        failure_reason = none;
      })

  unfoldable pub fail_transaction : Transaction → String → Action Db Unit
  fail_transaction transaction reason = modify λ db. record db {
    transactions =
        orm.update (λ t. t.id == transaction.id)
          (λ t. record t { status = TransactionStatus.failed; failure_reason = some reason })
          db.transactions;
  }

  -- The body of the transaction in `settleTransaction`, the lock taken.
  unfoldable pub settle_body :
      (entry_id wallet_id : ℕ)
      → Transaction
      → LedgerEntryType
      → ℤ
      → OutboxEvent
      → Action Db LedgerEntry
  settle_body entry_id wallet_id transaction entry_type balance_change outbox_payload = do
    found ← gets (λ db. orm.find_one (λ w. w.id == wallet_id) db.wallets)
    wallet ← or_throw found type_error
    let new_balance = wallet.balance +ℤ balance_change
    throw_if (ltb_ℤ new_balance (pos 0)) (bad_request "Insufficient balance")
    modify (λ db. record db {
      wallets =
          orm.update (λ w. w.id == wallet_id) (λ w. record w { balance = new_balance }) db.wallets;
    })
    saved_entry ← save_ledger_entry orm (record {
      id = entry_id;
      wallet_id = wallet_id;
      type = entry_type;
      amount = transaction.amount;
      currency = wallet.currency;
      balance_after = new_balance;
      idempotency_key = transaction.idempotency_key;
    })
    modify (λ db. record db {
      transactions =
          orm.update (λ t. t.id == transaction.id)
            (λ t. record t { status = TransactionStatus.completed }) db.transactions;
    })
    save_outbox_event orm outbox_payload
    pure saved_entry

  unfoldable pub settle_transaction :
      (entry_id wallet_id : ℕ)
      → Transaction
      → LedgerEntryType
      → ℤ
      → OutboxEvent
      → Action Db LedgerEntry
  unfolding settle_body
  settle_transaction entry_id wallet_id transaction entry_type balance_change outbox_payload =
      orm.transaction
        (settle_body entry_id wallet_id transaction entry_type balance_change outbox_payload)
