-- ===== src/Transfers/Repository.antt =====
-- src/features/transfers/transfers.repository.ts. The uuids of new rows are arguments.
use Prim.Native.String
use lior_paris_wallet.Prelude.{ℕ, String, Option, none, some, ◌==◌, str_eq, ltb, if◌then◌else◌}
use lior_paris_wallet.Prelude.Int.{ℤ, pos, ◌+ℤ◌, ◌-ℤ◌, ltb_ℤ}
use lior_paris_wallet.Result.{
  Action, pure, gets, or_throw, modify, throw_if, ◌>>=◌, ◌>>◌, bad_request, type_error,
}
use lior_paris_wallet.Orm.{Orm}
use lior_paris_wallet.Store.{save_transfer, save_ledger_entry, save_outbox_event}
use lior_paris_wallet.Entities.{
  Db, Wallet, LedgerEntry, transfer_out, transfer_in, Transfer, TransferStatus, OutboxEvent,
}

-- The wallets in the order in which they are locked.
unfoldable pub lock_order : (from_wallet_id to_wallet_id : ℕ) → ℕ × ℕ
lock_order from_wallet_id to_wallet_id =
    if ltb from_wallet_id to_wallet_id
    then (from_wallet_id, to_wallet_id)
    else (to_wallet_id, from_wallet_id)

-- `first.id === id ? first : second`, where the second row may be missing.
abbrev pub pick : ℕ → Wallet → Option Wallet → Option Wallet
pick id first second = if first.id == id then some first else second

module _ (entry_id : ℕ) (t : Transfer) (w : Wallet) (balance : ℤ) where
  abbrev pub debit_entry : LedgerEntry
  debit_entry = record {
    id = entry_id;
    wallet_id = w.id;
    type = transfer_out;
    amount = t.amount;
    currency = t.currency;
    balance_after = balance;
    idempotency_key = String.◌++◌ t.idempotency_key ":out";
  }

  abbrev pub credit_entry : LedgerEntry
  credit_entry = record {
    id = entry_id;
    wallet_id = w.id;
    type = transfer_in;
    amount = t.amount;
    currency = t.currency;
    balance_after = balance;
    idempotency_key = String.◌++◌ t.idempotency_key ":in";
  }

module _ (orm : Orm) where
  unfoldable pub find_by_idempotency_key : String → Action Db (Option Transfer)
  find_by_idempotency_key key =
      gets (λ db. orm.find_one (λ t. str_eq t.idempotency_key key) db.transfers)

  unfoldable pub create_transfer :
      (id from_user_id to_user_id : ℕ)
      → ℤ
      → (currency idempotency_key : String) → Action Db Transfer
  create_transfer id from_user_id to_user_id amount currency idempotency_key =
      save_transfer orm (record {
        id = id;
        from_user_id = from_user_id;
        to_user_id = to_user_id;
        amount = amount;
        currency = currency;
        status = TransferStatus.pending;
        idempotency_key = idempotency_key;
        failure_reason = none;
      })

  unfoldable pub fail_transfer : Transfer → String → Action Db Unit
  fail_transfer transfer reason = modify λ db. record db {
    transfers =
        orm.update (λ t. t.id == transfer.id)
          (λ t. record t { status = TransferStatus.failed; failure_reason = some reason })
          db.transfers;
  }

  lock_wallet : ℕ → Action Db (Option Wallet)
  lock_wallet id = gets (λ db. orm.find_one (λ w. w.id == id) db.wallets)

  write_balance : ℕ → ℤ → Action Db Unit
  write_balance id balance = modify λ db. record db {
    wallets = orm.update (λ w. w.id == id) (λ w. record w { balance = balance }) db.wallets;
  }

  -- The body of the transaction, from the two locked rows on.
  unfoldable pub move_money :
      (debit_id credit_id : ℕ)
      → Transfer
      → (from_wallet_id to_wallet_id : ℕ) → OutboxEvent
      → Wallet
      → Option Wallet
      → Action Db Unit
  unfolding write_balance
  move_money debit_id credit_id transfer from_wallet_id to_wallet_id outbox_payload first second =
      do
        from_wallet ← or_throw (pick from_wallet_id first second) type_error
        let sender_new_balance = from_wallet.balance -ℤ transfer.amount
        throw_if (ltb_ℤ sender_new_balance (pos 0)) (bad_request "Insufficient balance")
        to_wallet ← or_throw (pick to_wallet_id first second) type_error
        let receiver_new_balance = to_wallet.balance +ℤ transfer.amount
        write_balance from_wallet.id sender_new_balance
        write_balance to_wallet.id receiver_new_balance
        save_ledger_entry orm (debit_entry debit_id transfer from_wallet sender_new_balance)
        save_ledger_entry orm (credit_entry credit_id transfer to_wallet receiver_new_balance)
        modify (λ db. record db {
          transfers =
              orm.update (λ t. t.id == transfer.id)
                (λ t. record t { status = TransferStatus.completed }) db.transfers;
        })
        save_outbox_event orm outbox_payload
        pure tt

  unfoldable pub execute_body :
      (debit_id credit_id : ℕ)
      → Transfer
      → (from_wallet_id to_wallet_id : ℕ) → OutboxEvent
      → Action Db Unit
  unfolding lock_order lock_wallet move_money
  execute_body debit_id credit_id transfer from_wallet_id to_wallet_id outbox_payload = do
    let (first_id, second_id) = lock_order from_wallet_id to_wallet_id
    locked ← lock_wallet first_id
    second ← lock_wallet second_id
    first ← or_throw locked type_error
    move_money debit_id credit_id transfer from_wallet_id to_wallet_id outbox_payload first second

  unfoldable pub execute_transfer :
      (debit_id credit_id : ℕ)
      → Transfer
      → (from_wallet_id to_wallet_id : ℕ) → OutboxEvent
      → Action Db Unit
  execute_transfer debit_id credit_id transfer from_wallet_id to_wallet_id outbox_payload =
      orm.transaction
        (execute_body debit_id credit_id transfer from_wallet_id to_wallet_id outbox_payload)
