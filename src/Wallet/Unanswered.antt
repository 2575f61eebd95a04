-- ===== src/Wallet/Unanswered.antt =====
-- A deposit whose provider rejects the call: `deposit` of src/features/wallet/wallet.service.ts, and the
-- calls of src/features/wallet/stripe-webhook.controller.ts that come after it. A provider may have
-- created the session all the same: opossum rejects a call that takes too long, and does not undo it.
use mathlib.Core.List.Memᴰ
use lior_paris_wallet.Prelude.{
  ℕ, String, ◌≡◌, ◌≢◌, ◌∙◌, ◌&&◌, ◌==◌, refl, sym, ap, inl, inr, true, false, Option, none, some,
  List, [], ◌∷◌, ◌++◌, Memᴰ, Option-cases, Bool-cases, str_eq, eq_iff, arith,
}
use lior_paris_wallet.Prelude.Rows.{any, any-false, mem-snoc}
use lior_paris_wallet.Result.{Exception, ok, err}
use lior_paris_wallet.Orm.{Orm}
use lior_paris_wallet.App.{App, Cache}
use lior_paris_wallet.Entities.{Wallet, Transaction, transaction_clash}
use lior_paris_wallet.Payments.{Registry, PaymentGateway, resolve}
use lior_paris_wallet.Wallet.Repository.{
  find_by_user_id_and_currency, find_transaction_by_idempotency_key,
  find_transaction_by_provider_ref, create_transaction, has_provider_ref,
}
use lior_paris_wallet.Wallet.Service.{
  DepositDto, SettleIds, deposit_once, deposit, settle_found, settle_by_provider_ref, fail_found,
  fail_by_provider_ref,
}
use lior_paris_wallet.Wallet.Webhook.{
  StripeWebhookEvent, ConstructEvent, handle_event, handle_webhook,
}
use lior_paris_wallet.Wallet.Endings.{created_row, with_transactions}

module _ (orm : Orm) (cache : Cache) (registry : Registry) (id user_id : ℕ) (input : DepositDto)
    (app : App) where
  -- The row of the deposit.
  abbrev row : Transaction
  row = created_row orm cache registry id user_id input app

  abbrev rows : List Transaction
  rows = app.db.transactions ++ row ∷ []

  -- The state that the deposit leaves: its row is pending and has no reference.
  abbrev pub unanswered : App
  unanswered = with_transactions orm cache registry id user_id input app rows

  -- What the deposit finds: its key is new, its user has the wallet, the method has a gateway, and the
  -- gateway rejects.
  pub record IsRejected (x : Exception) : Type 0 where
    pub unused :
        orm.find_one (λ t. str_eq t.idempotency_key input.idempotency_key) app.db.transactions
        ≡ none
    pub wallet : Wallet
    pub owned :
        orm.find_one (λ w. w.user_id == user_id && str_eq w.currency input.currency) app.db.wallets
        ≡ some wallet
    pub free : any (transaction_clash row) app.db.transactions ≡ false
    pub gateway : PaymentGateway
    pub supported : resolve registry input.payment_method ≡ ok gateway
    pub rejected :
        gateway.process_deposit input.amount input.currency input.payment_method
          (record { transaction_id = id; user_id = user_id })
        ≡ err x

  deposit_rejects :
      (x : Exception)
      → IsRejected x
      → deposit orm cache registry id user_id input app ≡ (err x, unanswered)
  unfolding deposit deposit_once find_transaction_by_idempotency_key find_by_user_id_and_currency
      create_transaction
  deposit_rejects x found =
      let inserted : orm.insert transaction_clash row app.db.transactions ≡ some rows =
        rw (orm.insert_lem, found.free) refl in
      ground (arith, found.unused, found.owned, inserted, found.supported, found.rejected)

  key_taken :
      (t : Option Transaction)
      → orm.find_one (λ t. str_eq t.idempotency_key input.idempotency_key) rows ≡ t
      → t ≢ none
  key_taken t search missing =
      let last : Memᴰ row rows = Memᴰ.append_right app.db.transactions (Memᴰ.head refl) in
      let unfit = any-false _ _ (orm.find_one-none _ _ (search ∙ missing)) last in
      let text = eq_iff input.idempotency_key input.idempotency_key in ground (arith, unfit, text)

  -- A further request with the key finds the row.
  deposit_again :
      (registry' : Registry) (id' user_id' : ℕ) (input' : DepositDto)
      → input'.idempotency_key ≡ input.idempotency_key
      → deposit orm cache registry' id' user_id' input' unanswered ≡ (ok none, unanswered)
  unfolding deposit find_transaction_by_idempotency_key
  deposit_again registry' id' user_id' input' same =
      rw same
        (elim (Option-cases
          (orm.find_one (λ t. str_eq t.idempotency_key input.idempotency_key) rows)) [
            | inl missing ↦ absurd (key_taken _ missing refl)
            | inr (t, found) ↦ rw found refl
          ])

  -- No row has a reference that none had before.
  no_reference :
      (ref : String)
      → any (has_provider_ref ref) app.db.transactions ≡ false
      → orm.find_one (has_provider_ref ref) rows ≡ none
  unfolding has_provider_ref
  no_reference ref fresh = elim (Option-cases (orm.find_one (has_provider_ref ref) rows)) [
    | inl missing ↦ missing
    | inr (t, found) ↦
        let (m, fits) = orm.find_one-some _ _ found in
        absurd (elim (mem-snoc app.db.transactions m) [
          | inr new ↦
              let c : false ≡ true = ap (has_provider_ref ref) (sym new) ∙ fits in ground arith
          | inl old ↦
              let unfit = any-false (has_provider_ref ref) app.db.transactions fresh old in
              ground (arith, unfit, fits)
        ])
  ]

  module _ (construct_event : ConstructEvent) (secret : String) (ids : SettleIds) where
    event_ignored :
        (event : StripeWebhookEvent)
        → any (has_provider_ref event.object_id) app.db.transactions ≡ false
        → handle_event orm cache construct_event secret ids event unanswered ≡ (ok tt, unanswered)
    unfolding handle_event settle_by_provider_ref settle_found fail_by_provider_ref fail_found
        find_transaction_by_provider_ref
    event_ignored event fresh =
        let missing = no_reference event.object_id fresh in
        elim (Bool-cases (str_eq event.type "checkout.session.completed")) [
          | inl completes ↦ elim (Option-cases event.payment_status) [
            | inl none_given ↦ rw (completes, none_given) refl
            | inr (status, given) ↦ elim (Bool-cases (str_eq status "paid")) [
              | inr unpaid ↦ rw (completes, given) (rw unpaid refl)
              | inl paid ↦ rw (completes, given) (rw paid (rw missing refl))
            ]
          ]
          | inr other ↦ elim (Bool-cases (str_eq event.type "checkout.session.expired")) [
            | inl expires ↦ rw other (rw expires (rw missing refl))
            | inr unknown ↦ rw other (rw unknown refl)
          ]
        ]

    -- A deposit whose provider rejects the call, with a new key and for a wallet that is there: the request
    -- throws what the provider has rejected with, and leaves its row pending with no reference. A further
    -- request with the key answers no URL and changes nothing. A signed call of the webhook about a session
    -- that no earlier row refers to, such as the one that a provider may have created before the rejection,
    -- returns and changes nothing, even if the session has been paid.
    pub deposit-unanswered :
        (x : Exception)
        → IsRejected x
        → (registry' : Registry) (id' user_id' : ℕ) (input' : DepositDto)
        → input'.idempotency_key ≡ input.idempotency_key
        → (body signature : String) (event : StripeWebhookEvent) → str_eq signature "" ≡ false
        → construct_event body signature secret ≡ some event
        → any (has_provider_ref event.object_id) app.db.transactions ≡ false
        → (deposit orm cache registry id user_id input app ≡ (err x, unanswered))
          × (deposit orm cache registry' id' user_id' input' unanswered ≡ (ok none, unanswered))
          × (handle_webhook orm cache construct_event secret ids body (some signature) unanswered
              ≡ (ok tt, unanswered))
    unfolding handle_webhook
    deposit-unanswered x found registry' id' user_id' input' same body signature event given
          constructed fresh =
        let ignored = event_ignored event fresh in
        (
          deposit_rejects x found,
          deposit_again registry' id' user_id' input' same,
          rw given (rw constructed ignored),
        )
