-- ===== src/Wallet/Endings.antt =====
-- How a deposit request ends (`deposit` of src/features/wallet/wallet.service.ts), once it has its row.
use lior_paris_wallet.Prelude.{
  ℕ, String, ◌≡◌, ◌==◌, refl, inl, inr, true, false, Option, none, some, List, [], ◌∷◌, ◌++◌, Memᴰ,
  Option-cases, Bool-cases, arith,
}
use mathlib.Core.List.Memᴰ
use lior_paris_wallet.Prelude.Rows.{any, any-false, set_where, mem-set_where}
use lior_paris_wallet.Result.{Result, Exception, ok, err, bad_request}
use lior_paris_wallet.Orm.{Orm}
use lior_paris_wallet.App.{App, Cache}
use lior_paris_wallet.Entities.{Transaction, TransactionStatus, transaction_clash}
use lior_paris_wallet.Payments.{Registry, PaymentGateway, PaymentGatewayResult, resolve}
use lior_paris_wallet.Wallet.Repository.{fail_transaction, update_transaction_provider_ref}
use lior_paris_wallet.Wallet.Service.{DepositDto, truthy, failure_reason_of, conclude_deposit}

module _ (orm : Orm) (cache : Cache) (registry : Registry) (id user_id : ℕ) (input : DepositDto)
    (app : App) where
  -- The row that a request creates.
  abbrev pub created_row : Transaction
  created_row = record {
    id = id;
    user_id = user_id;
    amount = input.amount;
    currency = input.currency;
    payment_method = input.payment_method;
    status = TransactionStatus.pending;
    idempotency_key = input.idempotency_key;
    provider_ref = none;
    failure_reason = none;
  }

  -- The state with other transactions.
  abbrev pub with_transactions : List Transaction → App
  with_transactions rows = record app { db = record app.db { transactions = rows } }

  abbrev pub created_rows : List Transaction
  created_rows = app.db.transactions ++ created_row ∷ []

  abbrev pub failed_row : String → Transaction → Transaction
  failed_row reason t = record t { status = TransactionStatus.failed; failure_reason = some reason }

  abbrev pub referred_row : String → Transaction → Transaction
  referred_row ref t = record t { provider_ref = some ref }

  abbrev pub referred_by : Option String → Transaction → Transaction
  referred_by none t = t
  referred_by (some ref) t = referred_row ref t

  -- What the request asks of a gateway.
  abbrev pub asked : PaymentGateway → Result PaymentGatewayResult
  asked gateway =
      gateway.process_deposit input.amount input.currency input.payment_method
        (record { transaction_id = id; user_id = user_id })

  -- How a request ends that got as far as its row, and what becomes of the row.
  pub data Ended : Result (Option String) → Transaction → Type 0 where
    -- no gateway takes the method
    unsupported :
        (x : Exception) → resolve registry input.payment_method ≡ err x → Ended (err x) created_row
    -- the gateway rejects
    rejected :
        (gateway : PaymentGateway) (x : Exception)
        → resolve registry input.payment_method ≡ ok gateway
        → asked gateway ≡ err x
        → Ended (err x) created_row
    -- the provider declines: the row fails with its reason
    declined :
        (gateway : PaymentGateway) (answer : PaymentGatewayResult)
        → resolve registry input.payment_method ≡ ok gateway
        → asked gateway ≡ ok answer
        → answer.success ≡ false
        → Ended
            (err (bad_request "Deposit declined by payment provider"))
            (failed_row (failure_reason_of answer.failure_reason) created_row)
    -- the provider accepts: the row has the reference, if one is given that is not empty
    awaits :
        (gateway : PaymentGateway) (answer : PaymentGatewayResult)
        → resolve registry input.payment_method ≡ ok gateway
        → asked gateway ≡ ok answer
        → answer.success ≡ true
        → answer.requires_webhook ≡ true
        → Ended (ok answer.checkout_url) (referred_by (truthy answer.provider_ref) created_row)
    has_no_path :
        (gateway : PaymentGateway) (answer : PaymentGatewayResult)
        → resolve registry input.payment_method ≡ ok gateway
        → asked gateway ≡ ok answer
        → answer.success ≡ true
        → answer.requires_webhook ≡ false
        → Ended
            (err (bad_request "No settlement path available for gateway"))
            (referred_by (truthy answer.provider_ref) created_row)

  -- A request that got as far as its row: the earlier rows stay, no other table changes, and the row is there
  -- as the end of the request says.
  pub record Requested (r : Result (Option String)) (app' : App) : Type 0 where
    pub rows : List Transaction
    pub result : app' ≡ with_transactions rows
    pub kept : (t : Transaction) → Memᴰ t app.db.transactions → Memᴰ t rows
    pub row : Transaction
    pub stored : Memᴰ row rows
    pub ended : Ended r row

  module _ (free : any (transaction_clash created_row) app.db.transactions ≡ false) where
    -- An update of the new row leaves the others.
    kept_by :
        (f : Transaction → Transaction) (t : Transaction)
        → Memᴰ t app.db.transactions
        → Memᴰ t (set_where (λ t. t.id == id) f created_rows)
    unfolding transaction_clash
    kept_by f t m =
        let other = any-false (transaction_clash created_row) app.db.transactions free m in
        let miss : (t.id == id) ≡ false = ground (arith, other) in
        let after =
          mem-set_where (λ (t : Transaction). t.id == id) f created_rows (Memᴰ.append_left _ m) in
        rw miss at after

    new_by :
        (f : Transaction → Transaction)
        → Memᴰ (f created_row) (set_where (λ t. t.id == id) f created_rows)
    new_by f =
        let hit : (id == id) ≡ true = ground arith in
        let after =
          mem-set_where (λ (t : Transaction). t.id == id) f created_rows
            (Memᴰ.append_right app.db.transactions (Memᴰ.head refl)) in
        rw hit at after

    -- The new row as it was created.
    pub Requested-pending :
        (r : Result (Option String))
        → Ended r created_row
        → Requested r (with_transactions created_rows)
    Requested-pending r ended = record {
      rows = created_rows;
      result = refl;
      kept = λ t m. Memᴰ.append_left _ m;
      row = created_row;
      stored = Memᴰ.append_right app.db.transactions (Memᴰ.head refl);
      ended = ended;
    }

    -- The new row with an update.
    Requested-updated :
        (r : Result (Option String)) (f : Transaction → Transaction)
        → Ended r (f created_row)
        → Requested r (with_transactions (orm.update (λ t. t.id == id) f created_rows))
    Requested-updated r f ended = record {
      rows = set_where (λ t. t.id == id) f created_rows;
      result = rw orm.update_lem refl;
      kept = kept_by f;
      row = f created_row;
      stored = new_by f;
      ended = ended;
    }

    pub concluded :
        (gateway : PaymentGateway) (answer : PaymentGatewayResult)
        → resolve registry input.payment_method ≡ ok gateway
        → asked gateway ≡ ok answer
        → let end =
            conclude_deposit orm cache created_row answer (with_transactions created_rows) in
          Requested end.0 end.1
    unfolding conclude_deposit fail_transaction update_transaction_provider_ref
    concluded gateway answer found said = elim (Bool-cases answer.success) [
      | inr refused ↦ rw refused (
          Requested-updated _ (failed_row (failure_reason_of answer.failure_reason))
            (declined gateway answer found said refused))
      | inl accepted ↦ elim (Bool-cases answer.requires_webhook) [
        | inl waits ↦
            let ended = awaits gateway answer found said accepted waits in
            elim (Option-cases (truthy answer.provider_ref)) [
              | inl missing ↦
                  rw accepted (rw missing (rw waits (Requested-pending _ (rw missing at ended))))
              | inr (ref, given) ↦
                  rw accepted (
                    rw given
                      (rw waits (Requested-updated _ (referred_row ref) (rw given at ended))))
            ]
        | inr ends ↦
            let ended = has_no_path gateway answer found said accepted ends in
            elim (Option-cases (truthy answer.provider_ref)) [
              | inl missing ↦
                  rw accepted (rw missing (rw ends (Requested-pending _ (rw missing at ended))))
              | inr (ref, given) ↦
                  rw accepted (
                    rw given (rw ends (Requested-updated _ (referred_row ref) (rw given at ended))))
            ]
      ]
    ]
