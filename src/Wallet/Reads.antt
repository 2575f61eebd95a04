-- ===== src/Wallet/Reads.antt =====
-- What is read as a balance after any requests (src/features/wallet/wallet.service.ts,
-- src/features/transfers/transfers.service.ts), while they run one after another.
use lior_paris_wallet.Prelude.{ℕ, String, ◌≡◌, some, Memᴰ, subst, sym}
use lior_paris_wallet.Prelude.Int.{pos, ◌≤ℤ◌}
use lior_paris_wallet.Result.{ok}
use lior_paris_wallet.Orm.{Orm}
use lior_paris_wallet.App.{App, Cache}
use lior_paris_wallet.Entities.{Wallet, Transaction}
use lior_paris_wallet.Ledger.{IsAuditedDb}
use lior_paris_wallet.Wallet.Service.{SettleIds, balance_key, get_balance, settle_found}
use lior_paris_wallet.Wallet.Deposits.{settle_found-IsAudited}
use lior_paris_wallet.Wallet.Coherence.{
  IsCurrent, IsCoherent, read_by, settled-IsCoherent, transferred-IsCoherent,
}
use lior_paris_wallet.Transfers.Safety.{initiate_transfer-IsConserved}
use lior_paris_wallet.Transfers.Service.{InitiateTransferDto, TransferIds, initiate_transfer}

-- Requests, each on what the one before it has left: reads of balances, settlements, transfers of
-- validated amounts, and any that leave the cache and the wallets that are there, as deposits and
-- openings do.
pub data Requests (orm : Orm) (cache : Cache) (app : App) : App → Type 0 where
  start : Requests orm cache app app
  then_read :
      {b : App} (user_id : ℕ) (currency : String)
      → Requests orm cache app b
      → Requests orm cache app (get_balance orm cache user_id currency b).1
  then_settle :
      {b : App} (ids : SettleIds) (t : Transaction)
      → Requests orm cache app b
      → Requests orm cache app (settle_found orm cache ids (some t) b).1
  then_transfer :
      {b : App} (ids : TransferIds) (user_id : ℕ) (email : String) (input : InitiateTransferDto)
      → pos 1 ≤ℤ input.amount
      → Requests orm cache app b
      → Requests orm cache app (initiate_transfer orm cache ids user_id email input b).1
  then_write :
      {b c : App}
      → c.cache ≡ b.cache
      → ((w : Wallet) → Memᴰ w b.db.wallets → Memᴰ w c.db.wallets)
      → IsAuditedDb c.db
      → Requests orm cache app b
      → Requests orm cache app c

module _ (orm : Orm) (cache : Cache) where
  -- The books stay audited, and the cache coherent.
  Requests-IsCoherent :
      {app app' : App}
      → Requests orm cache app app'
      → IsAuditedDb app.db
      → IsCoherent app
      → IsAuditedDb app'.db × IsCoherent app'
  Requests-IsCoherent start books coherent = (books, coherent)
  Requests-IsCoherent (then_read {b} user_id currency before) books coherent =
      let (audited, held) = Requests-IsCoherent before books coherent in
      let read = read_by orm cache user_id currency b held in
      (subst IsAuditedDb (sym read.2) audited, read.1)
  Requests-IsCoherent (then_settle {b} ids t before) books coherent =
      let (audited, held) = Requests-IsCoherent before books coherent in
      (
        settle_found-IsAudited orm cache ids t b audited,
        settled-IsCoherent orm cache ids t b audited held,
      )
  Requests-IsCoherent (then_transfer {b} ids user_id email input valid before) books coherent =
      let (audited, held) = Requests-IsCoherent before books coherent in
      (
        (initiate_transfer-IsConserved orm cache ids user_id email input b valid audited).0,
        transferred-IsCoherent orm cache ids user_id email input b audited held,
      )
  Requests-IsCoherent (then_write {b} {c} same kept audited before) books coherent =
      let (old, held) = Requests-IsCoherent before books coherent in
      (
        audited,
        λ e m.
            let current = held e (rw same at m) in (kept e.wallet current.0, current.1, current.2),
      )

  -- From audited books and a coherent cache, as an empty one is, and after any reads, settlements,
  -- transfers and writes that keep the wallets, one after another: a balance that is read is a row of the
  -- tables as they are then, and it is of the user and in the currency that were asked for.
  pub get_balance-IsCurrent :
      {app app' : App} (user_id : ℕ) (currency : String) (w : Wallet)
      → Requests orm cache app app'
      → IsAuditedDb app.db
      → IsCoherent app
      → (get_balance orm cache user_id currency app').0 ≡ ok w
      → IsCurrent app' (balance_key user_id currency) w
  get_balance-IsCurrent {app} {app'} user_id currency w requests books coherent answered =
      let (audited, held) = Requests-IsCoherent requests books coherent in
      (read_by orm cache user_id currency app' held).0 w answered
