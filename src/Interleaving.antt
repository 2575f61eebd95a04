-- ===== src/Interleaving.antt =====
-- Requests that run at the same time. Every write of the program to the wallets or the ledger is one
-- database transaction or one insert; between two of them any others may run, and a request may go
-- on with rows that have changed since it read them. A step is one such write, with any arguments
-- that a request can give it; the rows that it takes from earlier reads are arbitrary. The deletion of
-- a user is not a step, since it takes the user's wallets, with what they hold, out of the database:
-- Departures.antt lets deletions run between the steps.
pub mod Departures
use lior_paris_wallet.Prelude.{arith, ℕ, ◌≡◌, ◌≢◌, inl, inr, Memᴰ}
use lior_paris_wallet.Prelude.Int.{pos, ◌≤ℤ◌}
use lior_paris_wallet.Result.{Result, ok, err}
use lior_paris_wallet.Orm.{Orm}
use lior_paris_wallet.Orm.Laws.{insert_cases}
use lior_paris_wallet.Store.{save_wallet}
use lior_paris_wallet.Entities.{
  Db, Wallet, LedgerEntry, LedgerEntryType, Transaction, Transfer, OutboxEvent, wallet_clash,
}
use lior_paris_wallet.Ledger.{IsAuditedDb, IsSolventDb}
use lior_paris_wallet.Ledger.Opening.{open-IsAudited, open-IsSolvent}
use lior_paris_wallet.Wallet.Repository.{settle_transaction}
use lior_paris_wallet.Wallet.Settlement.{SettleOutcome, settle_outcome}
use lior_paris_wallet.Wallet.Booking.{Settled-IsAudited, Settled-IsSolvent}
use lior_paris_wallet.Transfers.Repository.{execute_transfer}
use lior_paris_wallet.Transfers.Movement.{MoveOutcome, execute_outcome}
use lior_paris_wallet.Transfers.Conservation.{Moved-IsAudited, Moved-IsSolvent}

module _ (orm : Orm) where
  pub data Step (db : Db) : Db → Type 0 where
    -- `settleTransaction`, as `settleByProviderRef` calls it
    settle :
        (entry_id wallet_id : ℕ) (t : Transaction) (event : OutboxEvent)
        → Step db
            (settle_transaction orm entry_id wallet_id t LedgerEntryType.deposit t.amount event
              db).1
    -- `executeTransfer`, of a validated amount between two wallets
    execute :
        (debit_id credit_id : ℕ) (t : Transfer) (from_id to_id : ℕ) (event : OutboxEvent)
        → from_id ≢ to_id
        → pos 1 ≤ℤ t.amount
        → Step db (execute_transfer orm debit_id credit_id t from_id to_id event db).1
    -- the insert of `ensureWallet`, with a uuid that the ledger does not name
    open_wallet :
        (w : Wallet)
        → w.balance ≡ pos 0
        → ((e : LedgerEntry) → Memᴰ e db.ledger → e.wallet_id ≢ w.id)
        → Step db (save_wallet orm w db).1
    -- a write to the other tables
    elsewhere : {db' : Db} → db'.wallets ≡ db.wallets → db'.ledger ≡ db.ledger → Step db db'

  -- Any number of steps, of any requests, in any order.
  pub data Reach (db : Db) : Db → Type 0 where
    here : Reach db db
    next : {db' db'' : Db} → Reach db db' → Step db' db'' → Reach db db''

  abbrev IsSound : Db → Type 0
  IsSound db = IsAuditedDb db × IsSolventDb db

  settle-IsSound :
      (entry_id wallet_id : ℕ) (t : Transaction) (event : OutboxEvent) (db : Db)
      (r : Result LedgerEntry × Db)
      → SettleOutcome entry_id wallet_id t LedgerEntryType.deposit t.amount event db r
      → IsSound db
      → IsSound r.1
  settle-IsSound entry_id wallet_id t event db (ok e, db') done (books, solvent) = (
    Settled-IsAudited entry_id wallet_id t done books,
    Settled-IsSolvent entry_id wallet_id t done books solvent,
  )
  settle-IsSound entry_id wallet_id t event db (err x, db') same sound = rw same sound

  execute-IsSound :
      (debit_id credit_id : ℕ) (t : Transfer) (from_id to_id : ℕ) (event : OutboxEvent) (db : Db)
      (r : Result Unit × Db)
      → from_id ≢ to_id
      → pos 1 ≤ℤ t.amount
      → MoveOutcome debit_id credit_id t from_id to_id event db r
      → IsSound db
      → IsSound r.1
  execute-IsSound debit_id credit_id t from_id to_id event db (ok u, db') apart valid m
        (books, solvent) =
      (
        Moved-IsAudited debit_id credit_id t apart m books (omega arith),
        Moved-IsSolvent debit_id credit_id t apart m books solvent,
      )
  execute-IsSound debit_id credit_id t from_id to_id event db (err x, db') apart valid same sound =
      rw same sound

  open-IsSound :
      (w : Wallet) (db : Db)
      → w.balance ≡ pos 0
      → ((e : LedgerEntry) → Memᴰ e db.ledger → e.wallet_id ≢ w.id)
      → IsSound db
      → IsSound (save_wallet orm w db).1
  open-IsSound w db empty unnamed (books, solvent) =
      elim (insert_cases orm wallet_clash w db.wallets) [
        | inl taken ↦ rw taken (books, solvent)
        | inr (free, saved) ↦ rw saved (
          open-IsAudited w db.wallets db.ledger empty unnamed free books,
          open-IsSolvent w db.wallets db.ledger empty solvent,
        )
      ]

  Step-IsSound : {db db' : Db} → Step db db' → IsSound db → IsSound db'
  Step-IsSound {db} (settle entry_id wallet_id t event) sound =
      settle-IsSound entry_id wallet_id t event db _
        (settle_outcome entry_id wallet_id t LedgerEntryType.deposit t.amount orm event db) sound
  Step-IsSound {db} (execute debit_id credit_id t from_id to_id event apart valid) sound =
      execute-IsSound debit_id credit_id t from_id to_id event db _ apart valid
        (execute_outcome debit_id credit_id t from_id to_id orm event db) sound
  Step-IsSound {db} (open_wallet w empty unnamed) sound = open-IsSound w db empty unnamed sound
  Step-IsSound (elsewhere wallets ledger) (books, solvent) =
      (rw (wallets, ledger) books, rw (wallets, ledger) solvent)

  -- However the writes of concurrent requests interleave, every balance stays what the ledger says
  -- and not negative, no key is booked twice, and the wallets hold exactly what was deposited.
  pub Reach-IsSound :
      {db db' : Db}
      → Reach db db'
      → IsAuditedDb db
      → IsSolventDb db
      → IsAuditedDb db' × IsSolventDb db'
  Reach-IsSound here books solvent = (books, solvent)
  Reach-IsSound (next before step) books solvent =
      Step-IsSound step (Reach-IsSound before books solvent)
