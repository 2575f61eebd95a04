-- ===== src/Transfers/Service.antt =====
-- src/features/transfers/transfers.service.ts. Logging is left out; the clock and the uuids of new
-- rows are arguments.
use lior_paris_wallet.Prelude.{ℕ, String, not, Option, none, some, ◌==◌, str_eq}
use lior_paris_wallet.Prelude.Int.{ℤ}
use lior_paris_wallet.Result.{Action, pure, or_throw, throw_if, ◌>>=◌, ◌>>◌, bad_request, not_found}
use lior_paris_wallet.Orm.{Orm}
use lior_paris_wallet.App.{App, Cache, on_db}
use lior_paris_wallet.Entities.{
  Users, Wallet, Transfer, OutboxEvent, transfer_completed, of_transfer,
}
use lior_paris_wallet.Users.Repository.{find_user_by_id}
use lior_paris_wallet.Wallet.Repository.{find_by_wallet_tag, find_by_user_id_and_currency}
use lior_paris_wallet.Wallet.Service.{email_of, invalidate_balance_cache}
use lior_paris_wallet.Transfers.Repository.{
  find_by_idempotency_key, create_transfer, execute_transfer,
}

-- dto/initiate-transfer.input.ts
pub record InitiateTransferDto : Type 0 where
  pub to_wallet_tag : String
  pub amount : ℤ
  pub currency : String
  pub idempotency_key : String

-- What the runtime supplies: uuids for the new rows, and the time.
pub record TransferIds : Type 0 where
  pub transfer_id : ℕ
  pub debit_id : ℕ
  pub credit_id : ℕ
  pub event_id : ℕ
  pub now : ℕ

-- `user?.name ?? 'Unknown'`
abbrev pub name_of : Option Users → String
name_of none = "Unknown"
name_of (some user) = user.name

unfoldable pub transfer_event :
    TransferIds
    → Transfer
    → (from_user_email : String) → (from_user to_user : Option Users) → OutboxEvent
transfer_event ids t from_user_email from_user to_user = record {
  id = ids.event_id;
  created_at = ids.now;
  event_name = transfer_completed;
  aggregate_id = t.id;
  payload_json = of_transfer (record {
    transfer_id = t.id;
    from_user_id = t.from_user_id;
    to_user_id = t.to_user_id;
    amount = t.amount;
    currency = t.currency;
    from_user_email = from_user_email;
    from_user_name = name_of from_user;
    to_user_email = email_of to_user;
    to_user_name = name_of to_user;
  });
  occurred_at = ids.now;
  processed_at = none;
  retry_count = 0;
}

module _ (orm : Orm) (cache : Cache) where
  -- `initiateTransfer` from the two wallets on that it has read; the rows may be stale.
  unfoldable pub transfer_between :
      TransferIds
      → ℕ
      → String
      → InitiateTransferDto
      → (from_wallet to_wallet : Wallet) → Action App Unit
  transfer_between ids from_user_id from_user_email input from_wallet to_wallet = do
    from_user ← on_db (find_user_by_id orm from_user_id)
    to_user ← on_db (find_user_by_id orm to_wallet.user_id)
    transfer ← on_db (
        create_transfer orm ids.transfer_id from_user_id to_wallet.user_id input.amount
          input.currency input.idempotency_key)
    on_db (
        execute_transfer orm ids.debit_id ids.credit_id transfer from_wallet.id to_wallet.id
          (transfer_event ids transfer from_user_email from_user to_user))
    invalidate_balance_cache orm cache from_user_id input.currency
    invalidate_balance_cache orm cache to_wallet.user_id input.currency

  transfer_once : TransferIds → ℕ → String → InitiateTransferDto → Wallet → Action App Unit
  transfer_once ids from_user_id from_user_email input to_wallet = do
    sender ← on_db (find_by_user_id_and_currency orm from_user_id input.currency)
    from_wallet ← or_throw sender (not_found "Sender wallet not found")
    transfer_between ids from_user_id from_user_email input from_wallet to_wallet

  unfoldable pub initiate_transfer :
      TransferIds → ℕ → String → InitiateTransferDto → Action App Unit
  unfolding transfer_once
  initiate_transfer ids from_user_id from_user_email input = do
    recipient ← on_db (find_by_wallet_tag orm input.to_wallet_tag)
    to_wallet ← or_throw recipient (not_found "Recipient wallet not found")
    throw_if (not (str_eq to_wallet.currency input.currency))
        (bad_request "Recipient wallet currency does not match transfer currency")
    throw_if (from_user_id == to_wallet.user_id) (bad_request "Cannot transfer to yourself")
    existing ← on_db (find_by_idempotency_key orm input.idempotency_key)
    elim existing [
      | none ↦ transfer_once ids from_user_id from_user_email input to_wallet
      | some t ↦ pure tt
    ]
