-- ===== src/Wallet/Service.antt =====
-- src/features/wallet/wallet.service.ts and wallet.event-listener.ts. Logging is left out; the
-- clock and the uuids of new rows are arguments.
use Prim.Native.String
use lior_paris_wallet.Prelude.{ℕ, String, not, Option, none, some, str_eq, if◌then◌else◌, is_some}
use lior_paris_wallet.Prelude.Int.{ℤ}
use lior_paris_wallet.Result.{
  Action, pure, throw, gets, or_throw, throw_if, lift, ◌>>=◌, ◌>>◌, bad_request, conflict,
  not_found,
}
use lior_paris_wallet.Orm.{Orm}
use lior_paris_wallet.App.{App, Cache, BalanceKey, on_db, on_cache}
use lior_paris_wallet.Payments.{Registry, PaymentGatewayResult, resolve}
use lior_paris_wallet.Entities.{
  Users, Wallet, LedgerEntryType, Transaction, TransactionStatus, OutboxEvent, DomainEventName,
  deposit_succeeded, of_deposit, default_currency,
}
use lior_paris_wallet.Users.Repository.{find_user_by_id}
use lior_paris_wallet.Wallet.Repository.{
  find_by_user_id_and_currency, find_transaction_by_idempotency_key,
  find_transaction_by_provider_ref, update_transaction_provider_ref, ensure_wallet,
  create_transaction, fail_transaction, settle_transaction,
}

-- dto/deposit.input.ts
pub record DepositDto : Type 0 where
  pub amount : ℤ
  pub currency : String
  pub payment_method : String
  pub idempotency_key : String

-- What the runtime supplies to a settlement: uuids for the two new rows, and the time.
pub record SettleIds : Type 0 where
  pub entry_id : ℕ
  pub event_id : ℕ
  pub now : ℕ

abbrev pub balance_key : ℕ → String → BalanceKey
balance_key user_id currency = record { user_id = user_id; currency = currency }

-- `if (value)` on an optional text: neither undefined nor empty.
abbrev pub truthy : Option String → Option String
truthy none = none
truthy (some s) = if str_eq s "" then none else some s

unfoldable pub build_outbox_payload :
    SettleIds → DomainEventName → (wallet_id user_id : ℕ) → ℤ → String → Option String → OutboxEvent
build_outbox_payload ids event_name wallet_id user_id amount currency user_email = record {
  id = ids.event_id;
  created_at = ids.now;
  event_name = event_name;
  aggregate_id = wallet_id;
  payload_json = of_deposit (record {
    user_id = user_id;
    wallet_id = wallet_id;
    amount = amount;
    currency = currency;
    user_email = user_email;
  });
  occurred_at = ids.now;
  processed_at = none;
  retry_count = 0;
}

-- `failureReason ?? '…'`
abbrev pub failure_reason_of : Option String → String
failure_reason_of none = "Payment provider declined"
failure_reason_of (some reason) = reason

abbrev pub email_of : Option Users → Option String
email_of none = none
email_of (some user) = some user.email

module _ (orm : Orm) (cache : Cache) where
  unfoldable pub create_wallet :
      (id user_id : ℕ) → (currency wallet_tag : String) → Action App Wallet
  create_wallet id user_id currency wallet_tag = do
    existing ← on_db (find_by_user_id_and_currency orm user_id currency)
    throw_if (is_some existing)
        (conflict (String.◌++◌ "Wallet already exists for currency " currency))
    on_db (ensure_wallet orm id user_id currency wallet_tag)

  -- `handleUserRegistered` of the event listener.
  unfoldable pub handle_user_registered : (id user_id : ℕ) → (wallet_tag : String) → Action App Unit
  handle_user_registered id user_id wallet_tag = do
    on_db (ensure_wallet orm id user_id default_currency wallet_tag)
    pure tt

  read_balance : ℕ → String → Action App Wallet
  read_balance user_id currency = do
    found ← on_db (find_by_user_id_and_currency orm user_id currency)
    wallet ← or_throw found (not_found "Wallet not found")
    on_cache (cache.set (balance_key user_id currency) wallet)
    pure wallet

  unfoldable pub get_balance : ℕ → String → Action App Wallet
  unfolding read_balance
  get_balance user_id currency = do
    cached ← gets (λ app. cache.get (balance_key user_id currency) app.cache)
    elim cached [ none ↦ read_balance user_id currency | some wallet ↦ pure wallet ]

  unfoldable pub invalidate_balance_cache : ℕ → String → Action App Unit
  invalidate_balance_cache user_id currency = on_cache (cache.del (balance_key user_id currency))

  unfoldable pub get_user_email : ℕ → Action App (Option String)
  get_user_email user_id = do user ← on_db (find_user_by_id orm user_id); pure (email_of user)

  record_provider_ref : ℕ → Option String → Action App Unit
  record_provider_ref id none = pure tt
  record_provider_ref id (some ref) = on_db (update_transaction_provider_ref orm id ref)

  -- `deposit` from the gateway's answer on.
  unfoldable pub conclude_deposit : Transaction → PaymentGatewayResult → Action App (Option String)
  unfolding record_provider_ref
  conclude_deposit transaction answer =
      if not answer.success
      then (do
        on_db (fail_transaction orm transaction (failure_reason_of answer.failure_reason))
        throw (bad_request "Deposit declined by payment provider"))
      else (do
        record_provider_ref transaction.id (truthy answer.provider_ref)
        if answer.requires_webhook
            then pure answer.checkout_url
            else throw (bad_request "No settlement path available for gateway"))

  unfoldable pub deposit_once :
      Registry → (id user_id : ℕ) → DepositDto → Action App (Option String)
  unfolding conclude_deposit
  deposit_once registry id user_id input = do
    found ← on_db (find_by_user_id_and_currency orm user_id input.currency)
    or_throw found (not_found "Wallet not found")
    transaction ← on_db (
        create_transaction orm id user_id input.amount input.currency input.payment_method
          input.idempotency_key)
    gateway ← lift (resolve registry input.payment_method)
    answer ← lift (
        gateway.process_deposit input.amount input.currency input.payment_method
          (record { transaction_id = transaction.id; user_id = user_id }))
    conclude_deposit transaction answer

  -- The result is the property `checkoutUrl` of the source's.
  unfoldable pub deposit : Registry → (id user_id : ℕ) → DepositDto → Action App (Option String)
  unfolding deposit_once
  deposit registry id user_id input = do
    existing ← on_db (find_transaction_by_idempotency_key orm input.idempotency_key)
    elim existing [ none ↦ deposit_once registry id user_id input | some t ↦ pure none ]

  settle_in : SettleIds → Transaction → Option Wallet → Action App Unit
  settle_in ids t none = pure tt
  settle_in ids t (some wallet) = do
    email ← get_user_email t.user_id
    on_db (
        settle_transaction orm ids.entry_id wallet.id t LedgerEntryType.deposit t.amount (
          build_outbox_payload ids deposit_succeeded wallet.id t.user_id t.amount t.currency email))
    invalidate_balance_cache t.user_id t.currency

  settle_pending : SettleIds → Transaction → TransactionStatus → Action App Unit
  settle_pending ids t TransactionStatus.pending = do
    wallet ← on_db (find_by_user_id_and_currency orm t.user_id t.currency)
    settle_in ids t wallet
  settle_pending ids t TransactionStatus.completed = pure tt
  settle_pending ids t TransactionStatus.failed = pure tt

  -- `settleByProviderRef` from the row on that it has read.
  unfoldable pub settle_found : SettleIds → Option Transaction → Action App Unit
  unfolding settle_pending settle_in get_user_email
  settle_found ids none = pure tt
  settle_found ids (some t) = settle_pending ids t t.status

  unfoldable pub settle_by_provider_ref : SettleIds → String → Action App Unit
  unfolding settle_found
  settle_by_provider_ref ids ref = do
    found ← on_db (find_transaction_by_provider_ref orm ref)
    settle_found ids found

  fail_pending : Transaction → String → TransactionStatus → Action App Unit
  fail_pending t reason TransactionStatus.pending = on_db (fail_transaction orm t reason)
  fail_pending t reason TransactionStatus.completed = pure tt
  fail_pending t reason TransactionStatus.failed = pure tt

  unfoldable pub fail_found : String → Option Transaction → Action App Unit
  unfolding fail_pending
  fail_found reason none = pure tt
  fail_found reason (some t) = fail_pending t reason t.status

  unfoldable pub fail_by_provider_ref : String → String → Action App Unit
  unfolding fail_found
  fail_by_provider_ref ref reason = do
    found ← on_db (find_transaction_by_provider_ref orm ref)
    fail_found reason found
