-- ===== src/Bank/Refinement.antt =====
-- The program's writes are orders to the bank.
use lior_paris_wallet.Prelude.{
  ℕ, ◌≡◌, ◌≢◌, ◌∙◌, refl, sym, ap, some, arith, inl, inr, true, List, [], ◌∷◌, ◌++◌,
}
use lior_paris_wallet.Prelude.Int.{pos, ◌+ℤ◌, ◌-ℤ◌, ◌≤ℤ◌}
use lior_paris_wallet.Result.{Result, ok, err, is_ok}
use lior_paris_wallet.Orm.{Orm}
use lior_paris_wallet.Orm.Laws.{insert_cases}
use lior_paris_wallet.Store.{save_wallet}
use lior_paris_wallet.Entities.{
  Db, Wallet, LedgerEntry, LedgerEntryType, Transaction, Transfer, OutboxEvent, wallet_clash,
}
use lior_paris_wallet.Ledger.{IsAuditedDb, IsSolventDb}
use lior_paris_wallet.Ledger.Posting.{set_balance}
use lior_paris_wallet.Wallet.Repository.{settle_transaction}
use lior_paris_wallet.Transfers.Repository.{execute_transfer}
use lior_paris_wallet.Wallet.Settlement.{Settled, SettleOutcome, settle_outcome}
use lior_paris_wallet.Transfers.Movement.{Moved, MoveOutcome, execute_outcome}
use lior_paris_wallet.Interleaving.{
  Step, settle, execute, open_wallet, elsewhere, Reach, here, next, Reach-IsSound,
}
use lior_paris_wallet.Bank.{
  bank_of, account, AreSame, deposit, transfer, open_account, nothing, IsDone, Entry, Effect, Book,
  start, then_entry,
}
use lior_paris_wallet.Bank.Accounts.{account-mem, account-set_balance, account-snoc, account_free}

same_bank : (db db' : Db) → db'.wallets ≡ db.wallets → AreSame (bank_of db) (bank_of db')
same_bank db db' same id = rw same refl

Settled-IsDone :
    (entry_id wallet_id : ℕ) (t : Transaction) {event : OutboxEvent} {db db' : Db}
    → IsAuditedDb db
    → Settled entry_id wallet_id t LedgerEntryType.deposit t.amount event db db'
    → IsDone (deposit wallet_id t.amount) (bank_of db) (bank_of db')
Settled-IsDone entry_id wallet_id t {event} {db} {db'} books c =
    let own : account db.wallets wallet_id ≡ some c.wallet.balance =
      rw c.named at (account-mem db.wallets books.wallet_ids c.found) in
    (
      c.wallet.balance,
      own,
      c.covered,
      λ id. rw c.result (
          account-set_balance wallet_id (c.wallet.balance +ℤ t.amount) c.wallet.balance db.wallets
            own id),
    )

Moved-IsDone :
    (debit_id credit_id : ℕ) (t : Transfer) (from_id to_id : ℕ) {event : OutboxEvent} {db db' : Db}
    → from_id ≢ to_id
    → pos 1 ≤ℤ t.amount
    → IsAuditedDb db
    → Moved debit_id credit_id t from_id to_id event db db'
    → IsDone (transfer from_id to_id t.amount) (bank_of db) (bank_of db')
Moved-IsDone debit_id credit_id t from_id to_id {event} {db} {db'} apart valid books m =
    let s = m.sender in
    let r = m.receiver in
    let pays : account db.wallets from_id ≡ some s.balance =
      rw m.sender_named at (account-mem db.wallets books.wallet_ids m.sender_found) in
    let gets : account db.wallets to_id ≡ some r.balance =
      rw m.receiver_named at (account-mem db.wallets books.wallet_ids m.receiver_found) in
    let after = set_balance from_id (s.balance -ℤ t.amount) db.wallets in
    let first = account-set_balance from_id (s.balance -ℤ t.amount) s.balance db.wallets pays in
    let still : account after to_id ≡ some r.balance = first to_id ∙ ground (arith, apart, gets) in
    (
      s.balance,
      r.balance,
      apart,
      pays,
      gets,
      valid,
      m.enough,
      λ id.
          let second = account-set_balance to_id (r.balance +ℤ t.amount) r.balance after still id in
          rw m.result (rw (m.sender_named, m.receiver_named) (rw (second, first id) refl)),
    )

settle-Effect :
    (entry_id wallet_id : ℕ) (t : Transaction) (event : OutboxEvent) (db : Db)
    (r : Result LedgerEntry × Db)
    → IsAuditedDb db
    → SettleOutcome entry_id wallet_id t LedgerEntryType.deposit t.amount event db r
    → Effect (deposit wallet_id t.amount) (is_ok r.0) (bank_of db) (bank_of r.1)
settle-Effect entry_id wallet_id t event db (ok e, db') books done =
    Settled-IsDone entry_id wallet_id t books done
settle-Effect entry_id wallet_id t event db (err x, db') books same =
    same_bank db db' (ap (λ (d : Db). d.wallets) same)

execute-Effect :
    (debit_id credit_id : ℕ) (t : Transfer) (from_id to_id : ℕ) (event : OutboxEvent) (db : Db)
    (r : Result Unit × Db)
    → from_id ≢ to_id
    → pos 1 ≤ℤ t.amount
    → IsAuditedDb db
    → MoveOutcome debit_id credit_id t from_id to_id event db r
    → Effect (transfer from_id to_id t.amount) (is_ok r.0) (bank_of db) (bank_of r.1)
execute-Effect debit_id credit_id t from_id to_id event db (ok u, db') apart valid books done =
    Moved-IsDone debit_id credit_id t from_id to_id apart valid books done
execute-Effect debit_id credit_id t from_id to_id event db (err x, db') apart valid books same =
    same_bank db db' (ap (λ (d : Db). d.wallets) same)

module _ (orm : Orm) where
  open-Effect :
      (w : Wallet) (db : Db)
      → w.balance ≡ pos 0
      → Effect
          (open_account w.id)
          (is_ok (save_wallet orm w db).0)
          (bank_of db)
          (bank_of (save_wallet orm w db).1)
  open-Effect w db empty = elim (insert_cases orm wallet_clash w db.wallets) [
    | inl taken ↦ rw taken (λ id. refl)
    | inr (free, saved) ↦
        rw saved
          (account_free w db.wallets free, λ id. rw (sym empty) (account-snoc w db.wallets free id))
  ]

  -- What a write is asked to do, by its arguments, and whether it has returned.
  abbrev pub entry_of : {db db' : Db} → Step orm db db' → Entry
  entry_of {db} (settle entry_id wallet_id t event) = record {
    order = deposit wallet_id t.amount;
    accepted =
        is_ok
          (settle_transaction orm entry_id wallet_id t LedgerEntryType.deposit t.amount event db).0;
  }
  entry_of {db} (execute debit_id credit_id t from_id to_id event apart valid) = record {
    order = transfer from_id to_id t.amount;
    accepted = is_ok (execute_transfer orm debit_id credit_id t from_id to_id event db).0;
  }
  entry_of {db} (open_wallet w empty unnamed) = record {
    order = open_account w.id;
    accepted = is_ok (save_wallet orm w db).0;
  }
  entry_of (elsewhere wallets ledger) = record { order = nothing; accepted = true }

  abbrev pub entries_of : {db db' : Db} → Reach orm db db' → List Entry
  entries_of here = []
  entries_of (next before step) = entries_of before ++ entry_of step ∷ []

  Step-Effect :
      {db db' : Db} (step : Step orm db db')
      → IsAuditedDb db
      → Effect (entry_of step).order (entry_of step).accepted (bank_of db) (bank_of db')
  Step-Effect {db} (settle entry_id wallet_id t event) books =
      settle-Effect entry_id wallet_id t event db _ books
        (settle_outcome entry_id wallet_id t LedgerEntryType.deposit t.amount orm event db)
  Step-Effect {db} (execute debit_id credit_id t from_id to_id event apart valid) books =
      execute-Effect debit_id credit_id t from_id to_id event db _ apart valid books
        (execute_outcome debit_id credit_id t from_id to_id orm event db)
  Step-Effect {db} (open_wallet w empty unnamed) books = open-Effect w db empty
  Step-Effect {db} {db'} (elsewhere wallets ledger) books = same_bank db db' wallets

  -- Whatever the writes of concurrent requests do to sound tables, the bank sees their orders, one for each
  -- write and in their sequence: a write that returns has done its order exactly, with the amount and the
  -- accounts of its arguments, and one that throws has done nothing.
  pub Reach-refines :
      {db db' : Db} (writes : Reach orm db db')
      → IsAuditedDb db
      → IsSolventDb db
      → Book (bank_of db) (entries_of writes) (bank_of db')
  Reach-refines here books solvent = start
  Reach-refines (next before step) books solvent =
      then_entry (entry_of step) (Reach-refines before books solvent)
        (Step-Effect step (Reach-IsSound orm before books solvent).0)
