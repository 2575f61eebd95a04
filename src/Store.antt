-- ===== src/Store.antt =====
-- `manager.save(manager.create(Entity, …))` and `repository.save` of a new row, table by table.
use lior_paris_wallet.Prelude.{Option, none, some, List}
use lior_paris_wallet.Result.{Action, ok, err, query_failed}
use lior_paris_wallet.Orm.{Orm}
use lior_paris_wallet.Entities.{
  Db, Wallet, LedgerEntry, Transaction, Transfer, OutboxEvent, Users, users_clash, wallet_clash,
  ledger_clash, transaction_clash, transfer_clash, outbox_clash,
}

-- The row as saved, or the error of a violated index, which leaves the table.
abbrev pub saved : {R : Type 0} → R → (List R → Db) → Option (List R) → Action Db R
saved r write none s = (err query_failed, s)
saved r write (some rows) s = (ok r, write rows)

module _ (orm : Orm) where
  abbrev pub save_user : Users → Action Db Users
  save_user u db =
      saved u (λ rows. record db { users = rows }) (orm.insert users_clash u db.users) db

  abbrev pub save_wallet : Wallet → Action Db Wallet
  save_wallet w db =
      saved w (λ rows. record db { wallets = rows }) (orm.insert wallet_clash w db.wallets) db

  abbrev pub save_transaction : Transaction → Action Db Transaction
  save_transaction t db =
      saved t (λ rows. record db { transactions = rows })
        (orm.insert transaction_clash t db.transactions) db

  abbrev pub save_transfer : Transfer → Action Db Transfer
  save_transfer t db =
      saved t (λ rows. record db { transfers = rows }) (orm.insert transfer_clash t db.transfers) db

  abbrev pub save_ledger_entry : LedgerEntry → Action Db LedgerEntry
  save_ledger_entry e db =
      saved e (λ rows. record db { ledger = rows }) (orm.insert ledger_clash e db.ledger) db

  abbrev pub save_outbox_event : OutboxEvent → Action Db OutboxEvent
  save_outbox_event e db =
      saved e (λ rows. record db { outbox = rows }) (orm.insert outbox_clash e db.outbox) db
