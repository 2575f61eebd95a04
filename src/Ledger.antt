-- ===== src/Ledger.antt =====
-- The double-entry ledger as a specification of the balances: README, "every balance change creates
-- a LedgerEntry recording the wallet, amount, type, and resulting balance".
pub mod Posting
pub mod Opening
use lior_paris_wallet.Prelude.{ℕ, String, ◌≡◌, ◌==◌, List, Memᴰ, if◌then◌else◌}
use lior_paris_wallet.Prelude.Int.{ℤ, pos, ◌-ℤ◌, ◌≤ℤ◌}
use lior_paris_wallet.Prelude.Rows.{HasUniqueKeys, sum_of}
use lior_paris_wallet.Entities.{
  Db, Wallet, LedgerEntry, LedgerEntryType, deposit, transfer_out, transfer_in,
}

abbrev pub signed_amount : LedgerEntryType → ℤ → ℤ
signed_amount deposit amount = amount
signed_amount transfer_out amount = pos 0 -ℤ amount
signed_amount transfer_in amount = amount

-- What an entry adds to the wallet `id`.
abbrev pub effect_on : ℕ → LedgerEntry → ℤ
effect_on id e = if e.wallet_id == id then signed_amount e.type e.amount else pos 0

-- The balance of the wallet `id` by the ledger alone.
abbrev pub ledger_balance : ℕ → List LedgerEntry → ℤ
ledger_balance id = sum_of (effect_on id)

abbrev pub wallet_id_of : Wallet → ℕ
wallet_id_of w = w.id

abbrev pub wallet_balance : Wallet → ℤ
wallet_balance w = w.balance

abbrev pub entry_key : LedgerEntry → String
entry_key e = e.idempotency_key

-- The money in all wallets.
abbrev pub total_balance : List Wallet → ℤ
total_balance = sum_of wallet_balance

-- Every balance is what the ledger says and is not negative, and no key is booked twice.
pub record IsAudited (wallets : List Wallet) (ledger : List LedgerEntry) : Type 0 where
  pub wallet_ids : HasUniqueKeys wallet_id_of wallets
  pub balanced : (w : Wallet) → Memᴰ w wallets → w.balance ≡ ledger_balance w.id ledger
  pub covered : (w : Wallet) → Memᴰ w wallets → pos 0 ≤ℤ w.balance
  pub keys : HasUniqueKeys entry_key ledger

abbrev pub IsAuditedDb : Db → Type 0
IsAuditedDb db = IsAudited db.wallets db.ledger

-- What an entry brings in from outside: transfers only move money between wallets.
abbrev pub deposit_amount : LedgerEntry → ℤ
deposit_amount e = elim e.type [ deposit ↦ e.amount | transfer_out ↦ pos 0 | transfer_in ↦ pos 0 ]

-- The deposits that the ledger has booked.
abbrev pub deposited : List LedgerEntry → ℤ
deposited = sum_of deposit_amount

-- The wallets hold exactly what has been deposited.
abbrev pub IsSolventDb : Db → Type 0
IsSolventDb db = total_balance db.wallets ≡ deposited db.ledger
