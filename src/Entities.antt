-- ===== src/Entities.antt =====
-- The entities (src/features/*/entities, src/infrastructure/outbox/entities) and the constants of
-- src/shared. A uuid is its 128-bit number: written in lower-case hexadecimal of fixed width, uuids
-- compare as texts as their numbers do. Amounts and balances are integers in cents. The columns
-- `created_at` and `updated_at` of `BaseEntity` are kept where the program reads them.
use lior_paris_wallet.Prelude.{ℕ, String, Bool, ◌&&◌, ◌||◌, Option, List, str_eq, ◌==◌}
use lior_paris_wallet.Prelude.Int.{ℤ}

pub data UserRole : Type 0 where
  admin user : UserRole

abbrev pub default_currency : String
default_currency = "EUR"

pub data DomainEventName : Type 0 where
  user_registered deposit_succeeded transfer_completed transfer_sent transfer_received :
      DomainEventName

pub record Users : Type 0 where
  pub id : ℕ
  pub name : String
  pub email : String
  pub password : String
  pub role : UserRole
  pub created_at : ℕ
  pub updated_at : ℕ

pub record Wallet : Type 0 where
  pub id : ℕ
  pub user_id : ℕ
  pub balance : ℤ
  pub currency : String
  pub wallet_tag : String

pub data LedgerEntryType : Type 0 where
  deposit transfer_out transfer_in : LedgerEntryType

pub record LedgerEntry : Type 0 where
  pub id : ℕ
  pub wallet_id : ℕ
  pub type : LedgerEntryType
  pub amount : ℤ
  pub currency : String
  pub balance_after : ℤ
  pub idempotency_key : String

-- `TransactionStatus` and `TransferStatus` have the same three values.
pub data TransactionStatus : Type 0 where
  pending completed failed : TransactionStatus

pub data TransferStatus : Type 0 where
  pending completed failed : TransferStatus

-- `TransactionType` has the one value `Deposit`, so the column `type` is left out.
pub record Transaction : Type 0 where
  pub id : ℕ
  pub user_id : ℕ
  pub amount : ℤ
  pub currency : String
  pub payment_method : String
  pub status : TransactionStatus
  pub idempotency_key : String
  pub provider_ref : Option String
  pub failure_reason : Option String

pub record Transfer : Type 0 where
  pub id : ℕ
  pub from_user_id : ℕ
  pub to_user_id : ℕ
  pub amount : ℤ
  pub currency : String
  pub status : TransferStatus
  pub idempotency_key : String
  pub failure_reason : Option String

-- The objects that the services store in the column `payload_json`.
pub record DepositPayload : Type 0 where
  pub user_id : ℕ
  pub wallet_id : ℕ
  pub amount : ℤ
  pub currency : String
  pub user_email : Option String

pub record TransferPayload : Type 0 where
  pub transfer_id : ℕ
  pub from_user_id : ℕ
  pub to_user_id : ℕ
  pub amount : ℤ
  pub currency : String
  pub from_user_email : String
  pub from_user_name : String
  pub to_user_email : Option String
  pub to_user_name : String

pub data Payload : Type 0 where
  of_deposit : DepositPayload → Payload
  of_transfer : TransferPayload → Payload

pub record OutboxEvent : Type 0 where
  pub id : ℕ
  pub created_at : ℕ
  pub event_name : DomainEventName
  pub aggregate_id : ℕ
  pub payload_json : Payload
  pub occurred_at : ℕ
  pub processed_at : Option ℕ
  pub retry_count : ℕ

-- The unique indexes: the primary key, and those that the entities declare.
unfoldable pub users_clash : Users → Users → Bool
users_clash a b = a.id == b.id || str_eq a.email b.email

unfoldable pub wallet_clash : Wallet → Wallet → Bool
wallet_clash a b =
    a.id == b.id
    || (a.user_id == b.user_id && str_eq a.currency b.currency)
    || str_eq a.wallet_tag b.wallet_tag

unfoldable pub ledger_clash : LedgerEntry → LedgerEntry → Bool
ledger_clash a b = a.id == b.id || str_eq a.idempotency_key b.idempotency_key

unfoldable pub transaction_clash : Transaction → Transaction → Bool
transaction_clash a b = a.id == b.id || str_eq a.idempotency_key b.idempotency_key

unfoldable pub transfer_clash : Transfer → Transfer → Bool
transfer_clash a b = a.id == b.id || str_eq a.idempotency_key b.idempotency_key

unfoldable pub outbox_clash : OutboxEvent → OutboxEvent → Bool
outbox_clash a b = a.id == b.id

-- The tables of the database.
pub record Db : Type 0 where
  pub users : List Users
  pub wallets : List Wallet
  pub transactions : List Transaction
  pub transfers : List Transfer
  pub ledger : List LedgerEntry
  pub outbox : List OutboxEvent
