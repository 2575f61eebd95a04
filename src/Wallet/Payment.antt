-- ===== src/Wallet/Payment.antt =====
-- A deposit from the request to the credited wallet: src/features/wallet/wallet.service.ts,
-- src/features/payments/gateways and src/features/wallet/stripe-webhook.controller.ts together.
use Prim.Native.String.{◌++◌ as ◌&◌}
use mathlib.Core.List.Memᴰ
use lior_paris_wallet.Prelude.{
  Bool, ℕ, String, ◌≡◌, ◌∙◌, ◌==◌, ◌&&◌, refl, sym, ap, inl, inr, true, false, none, some, List, [],
  ◌∷◌, ◌++◌, Memᴰ, Option-cases, str_eq, eq_iff, arith,
}
use lior_paris_wallet.Prelude.Rows.{
  any, any-false, set_where, set_where-mem, mem-set_where, mem-snoc,
}
use lior_paris_wallet.Prelude.Texts.{to_lower_case}
use lior_paris_wallet.Result.{Result, ok}
use lior_paris_wallet.Orm.{Orm}
use lior_paris_wallet.App.{App, Cache}
use lior_paris_wallet.Entities.{Wallet, Transaction, TransactionStatus, transaction_clash}
use lior_paris_wallet.CircuitBreaker.{Breaker}
use lior_paris_wallet.Payments.{
  Registry, StripeClient, CheckoutSession, session_result, new_registry, stripe_gateway, resolve,
  get_gateway, stripe_process_deposit,
}
use lior_paris_wallet.Wallet.Repository.{
  find_by_user_id_and_currency, find_transaction_by_idempotency_key,
  find_transaction_by_provider_ref, create_transaction, has_provider_ref,
  update_transaction_provider_ref,
}
use lior_paris_wallet.Wallet.Service.{
  DepositDto, SettleIds, conclude_deposit, deposit_once, deposit, settle_found,
  settle_by_provider_ref,
}
use lior_paris_wallet.Wallet.Webhook.{
  StripeWebhookEvent, ConstructEvent, handle_event, handle_webhook,
}

-- A registry of the Stripe gateway alone, as src/features/payments/payments.module.ts provides it.
abbrev pub stripe_registry : Breaker → StripeClient → Registry
stripe_registry breaker stripe = new_registry (stripe_gateway breaker stripe ∷ [])

module _ (orm : Orm) (cache : Cache) (breaker : Breaker) (stripe : StripeClient) (id user_id : ℕ)
    (input : DepositDto) (app : App) where
  abbrev new_row : Transaction
  new_row = record {
    id = id;
    user_id = user_id;
    amount = input.amount;
    currency = input.currency;
    payment_method = input.payment_method;
    status = TransactionStatus.pending;
    idempotency_key = input.idempotency_key;
    provider_ref = none;
    failure_reason = none;
  }

  abbrev is_new : Transaction → Bool
  is_new t = t.id == id

  abbrev refer : String → Transaction → Transaction
  refer ref t = record t { provider_ref = some ref }

  abbrev paid_rows : String → List Transaction
  paid_rows ref = set_where is_new (refer ref) (app.db.transactions ++ new_row ∷ [])

  -- The row of the deposit with the session's reference.
  abbrev pub referred : String → Transaction
  referred ref = record new_row { provider_ref = some ref }

  -- The state once the session has been created.
  abbrev pub awaiting : String → App
  awaiting ref = record app { db = record app.db { transactions = paid_rows ref } }

  -- What a deposit finds: its key is new, its user has the wallet, and Stripe creates a session.
  pub record IsPayable (w : Wallet) (session : CheckoutSession) : Type 0 where
    pub method : input.payment_method ≡ "stripe"
    pub unused :
        orm.find_one (λ t. str_eq t.idempotency_key input.idempotency_key) app.db.transactions
        ≡ none
    pub owned :
        orm.find_one (λ w. w.user_id == user_id && str_eq w.currency input.currency) app.db.wallets
        ≡ some w
    pub free : any (transaction_clash new_row) app.db.transactions ≡ false
    pub created :
        stripe.create_session
          (to_lower_case input.currency)
          input.amount
          ("Wallet Deposit (" & input.currency & ")")
          (record { transaction_id = id; user_id = user_id })
        ≡ ok session
    pub closed : breaker.fire (session_result (ok session)) ≡ session_result (ok session)
    pub referable : str_eq session.id "" ≡ false
    pub new_session : any (has_provider_ref session.id) app.db.transactions ≡ false

  module _ (w : Wallet) (session : CheckoutSession) (payable : IsPayable w session) where
    stripe_resolves :
        resolve (stripe_registry breaker stripe) input.payment_method
        ≡ ok (stripe_gateway breaker stripe)
    unfolding resolve new_registry stripe_gateway get_gateway
    stripe_resolves = rw payable.method refl

    processed :
        (stripe_gateway breaker stripe).process_deposit input.amount input.currency
          input.payment_method
          (record { transaction_id = id; user_id = user_id })
        ≡ session_result (ok session)
    unfolding stripe_gateway stripe_process_deposit
    processed =
        ap (λ (r : Result CheckoutSession). breaker.fire (session_result r)) payable.created
        ∙ payable.closed

    pub deposit_awaits :
        deposit orm cache (stripe_registry breaker stripe) id user_id input app
        ≡ (ok (some session.url), awaiting session.id)
    unfolding deposit deposit_once conclude_deposit find_transaction_by_idempotency_key
        find_by_user_id_and_currency create_transaction update_transaction_provider_ref
    deposit_awaits =
        let inserted : orm.insert transaction_clash new_row app.db.transactions
            ≡ some (app.db.transactions ++ new_row ∷ []) =
          rw (orm.insert_lem, payable.free) refl in
        let referring =
          orm.update_lem is_new (refer session.id) (app.db.transactions ++ new_row ∷ []) in
        rw (sym referring) (
          ground (
            arith, payable.unused, payable.owned, inserted, stripe_resolves, processed,
            payable.referable,
          ))

    -- Only the deposit's own row has the reference of the session.
    only_referred :
        (t : Transaction)
        → Memᴰ t (paid_rows session.id)
        → has_provider_ref session.id t ≡ true
        → t ≡ referred session.id
    unfolding transaction_clash
    only_referred t m fits =
        let (a, n, same) =
          set_where-mem is_new (refer session.id) (app.db.transactions ++ new_row ∷ []) m in
        let hit : (id == id) ≡ true = ground arith in
        elim (mem-snoc app.db.transactions n) [
          | inr new ↦ rw new at same ∙ rw hit refl
          | inl old ↦
              let other =
                any-false (transaction_clash new_row) app.db.transactions payable.free old in
              let miss : (a.id == id) ≡ false = ground (arith, other) in
              let unchanged : t ≡ a = rw miss at same in
              let unfit =
                any-false (has_provider_ref session.id) app.db.transactions payable.new_session
                  old in
              absurd (
                let c : true ≡ false =
                  sym fits ∙ ap (has_provider_ref session.id) unchanged ∙ unfit in
                ground arith)
        ]

    -- The row of the deposit is in the tables.
    pub referred_stored : Memᴰ (referred session.id) (paid_rows session.id)
    referred_stored =
        let hit : (id == id) ≡ true = ground arith in
        let last : Memᴰ new_row (app.db.transactions ++ new_row ∷ []) =
          Memᴰ.append_right app.db.transactions (Memᴰ.head refl) in
        rw hit at (mem-set_where is_new (refer session.id) _ last)

    found_by_ref :
        orm.find_one (has_provider_ref session.id) (paid_rows session.id)
        ≡ some (referred session.id)
    unfolding has_provider_ref
    found_by_ref =
        elim (Option-cases (orm.find_one (has_provider_ref session.id) (paid_rows session.id))) [
          | inr (t, found) ↦
              let (m, fits) = orm.find_one-some _ _ found in
              found ∙ ap (λ (u : Transaction). some u) (only_referred t m fits)
          | inl missing ↦
              let unfit = any-false _ _ (orm.find_one-none _ _ missing) referred_stored in
              let text = eq_iff session.id session.id in absurd (ground (arith, unfit, text))
        ]

    -- The call of the webhook that tells of the payment: its body is signed, and it is about the session.
    pub record IsPaidCall (construct_event : ConstructEvent) (secret body signature : String)
        : Type 0 where
      pub given : str_eq signature "" ≡ false
      pub event : StripeWebhookEvent
      pub constructed : construct_event body signature secret ≡ some event
      pub about : event.object_id ≡ session.id
      pub is_completed : event.type ≡ "checkout.session.completed"
      pub is_paid : event.payment_status ≡ some "paid"

    pub webhook_settles :
        (construct_event : ConstructEvent) (secret body signature : String) (ids : SettleIds)
        → IsPaidCall construct_event secret body signature
        → handle_webhook orm cache construct_event secret ids body
            (some signature)
            (awaiting session.id)
          ≡ settle_found orm cache ids (some (referred session.id)) (awaiting session.id)
    unfolding handle_webhook handle_event settle_by_provider_ref find_transaction_by_provider_ref
    webhook_settles construct_event secret body signature ids call =
        let ref = call.about in
        let found = found_by_ref in
        rw (call.given)
          (rw (call.constructed) (rw (call.is_completed, call.is_paid, ref) (rw found refl)))
