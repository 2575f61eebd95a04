-- ===== src/Examples/Departures.antt =====
-- A deposit to one user, the deletion of the user and a transfer that comes too late.
use lior_paris_wallet.Prelude.{arith}
use lior_paris_wallet.Prelude.Int.{◌+ℤ◌, ◌≤ℤ◌}
use lior_paris_wallet.Orm.Memory.{memory}
use lior_paris_wallet.Entities.{Db, UserRole}
use lior_paris_wallet.Ledger.{IsAuditedDb, total_balance, deposited}
use lior_paris_wallet.Interleaving.{execute}
use lior_paris_wallet.Interleaving.Departures.{start, then_step, then_deletion, History-IsBacked}
use lior_paris_wallet.Users.Service.{remove_user}
use lior_paris_wallet.Examples.Data.{db, first_event}
use lior_paris_wallet.Examples.Money.{after_transfer, db-IsAudited}

abbrev bereft : Db
bereft = (remove_user memory 2 1 UserRole.admin after_transfer).1

db-backed : total_balance db.wallets ≤ℤ deposited db.ledger
unfolding ◌+ℤ◌
db-backed = omega arith

History-IsBacked_example :
    IsAuditedDb bereft × (total_balance bereft.wallets ≤ℤ deposited bereft.ledger)
History-IsBacked_example =
    History-IsBacked memory
      (then_deletion 2 1 UserRole.admin
        (then_step start (execute 34 35 _ 11 12 first_event (omega arith) (omega arith))))
      db-IsAudited db-backed
