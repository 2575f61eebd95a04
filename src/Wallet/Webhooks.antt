-- ===== src/Wallet/Webhooks.antt =====
-- What a call of the webhook (src/features/wallet/stripe-webhook.controller.ts) can do.
use lior_paris_wallet.Prelude.{
  String, ◌≡◌, ◌∙◌, ◌⊎◌, refl, inl, inr, Option, none, some, Option-cases, Bool-cases, str_eq,
  eq_iff, arith,
}
use lior_paris_wallet.Result.{Result}
use lior_paris_wallet.Orm.{Orm}
use lior_paris_wallet.App.{App, Cache}
use lior_paris_wallet.Entities.{Transaction, TransactionStatus}
use lior_paris_wallet.Ledger.{IsAuditedDb}
use lior_paris_wallet.Wallet.Repository.{
  fail_transaction, find_transaction_by_provider_ref, has_provider_ref,
}
use lior_paris_wallet.Wallet.Service.{
  SettleIds, settle_by_provider_ref, fail_found, fail_by_provider_ref,
}
use lior_paris_wallet.Wallet.Deposits.{settle_by_provider_ref-IsAudited}
use lior_paris_wallet.Wallet.Webhook.{
  StripeWebhookEvent, ConstructEvent, handle_event, handle_webhook,
}

module _ (orm : Orm) (cache : Cache) where
  -- A failed payment touches the tables of the wallets and of the ledger in no way.
  abbrev pub IsAside : App → App → Type 0
  IsAside app app' = (app'.db.wallets ≡ app.db.wallets) × (app'.db.ledger ≡ app.db.ledger)

  fail_found-IsAside :
      (reason : String) (t : Transaction) (s : TransactionStatus) (app : App)
      → t.status ≡ s
      → IsAside app (fail_found orm cache reason (some t) app).1
  unfolding fail_found fail_transaction
  fail_found-IsAside reason t TransactionStatus.pending app q = rw q (refl, refl)
  fail_found-IsAside reason t TransactionStatus.completed app q = rw q (refl, refl)
  fail_found-IsAside reason t TransactionStatus.failed app q = rw q (refl, refl)

  fail_by_provider_ref-IsAside :
      (ref reason : String) (app : App)
      → IsAside app (fail_by_provider_ref orm cache ref reason app).1
  unfolding fail_by_provider_ref find_transaction_by_provider_ref
  fail_by_provider_ref-IsAside ref reason app =
      elim (Option-cases (orm.find_one (has_provider_ref ref) app.db.transactions)) [
        | inl missing ↦ rw missing (refl, refl)
        | inr (t, read) ↦ rw read (fail_found-IsAside reason t t.status app refl)
      ]

  module _ (construct_event : ConstructEvent) (webhook_secret : String) (ids : SettleIds)
      (body : String) (app : App) where
    -- The event of a completed and paid session, from a body that is signed.
    pub record IsPaid (signature : Option String) : Type 0 where
      pub signed_by : String
      pub given : signature ≡ some signed_by
      pub event : StripeWebhookEvent
      pub constructed : construct_event body signed_by webhook_secret ≡ some event
      pub is_completed : event.type ≡ "checkout.session.completed"
      pub is_paid : event.payment_status ≡ some "paid"

    abbrev pub called : Option String → Result Unit × App
    called signature =
        handle_webhook orm cache construct_event webhook_secret ids body signature app

    handle_event_outcome :
        (event : StripeWebhookEvent)
        → let answer = handle_event orm cache construct_event webhook_secret ids event app in
          IsAside app answer.1
          ⊎ ((event.type ≡ "checkout.session.completed")
              × (event.payment_status ≡ some "paid")
              × (answer ≡ settle_by_provider_ref orm cache ids event.object_id app))
    unfolding handle_event
    handle_event_outcome event =
        elim (Bool-cases (str_eq event.type "checkout.session.completed")) [
          | inl completes ↦
              let type = eq_iff event.type "checkout.session.completed" in
              elim (Option-cases event.payment_status) [
                | inl missing ↦ inl (rw (completes, missing) (refl, refl))
                | inr (status, given) ↦ elim (Bool-cases (str_eq status "paid")) [
                  | inr unpaid ↦ inl (rw (completes, given) (rw unpaid (refl, refl)))
                  | inl paid ↦
                      let word = eq_iff status "paid" in
                      inr (
                        ground (arith, type, completes),
                        ground (arith, word, paid, given),
                        ground arith,
                      )
                ]
              ]
          | inr other ↦ elim (Bool-cases (str_eq event.type "checkout.session.expired")) [
            | inl expires ↦ inl (
                rw other (
                  rw expires
                    (fail_by_provider_ref-IsAside event.object_id "Checkout session expired" app)))
            | inr unknown ↦ inl (rw other (rw unknown (refl, refl)))
          ]
        ]

    -- A call leaves the wallets and the ledger, or it carries the signed event of a completed and paid
    -- session, and settles the deposit of that session.
    pub handle_webhook_outcome :
        (signature : Option String)
        → (IsAside app (called signature).1)
          ⊎ ((p : IsPaid signature) × (called signature
                ≡ settle_by_provider_ref orm cache ids p.event.object_id app))
    unfolding handle_webhook
    handle_webhook_outcome none = inl (refl, refl)
    handle_webhook_outcome (some s) = elim (Bool-cases (str_eq s "")) [
      | inl empty ↦ inl (rw empty (refl, refl))
      | inr given ↦ elim (Option-cases (construct_event body s webhook_secret)) [
        | inl forged ↦ inl (rw given (rw forged (refl, refl)))
        | inr (event, constructed) ↦
            let same : called (some s)
                ≡ handle_event orm cache construct_event webhook_secret ids event app =
              ground arith in
            elim (handle_event_outcome event) [
              | inl aside ↦ inl (rw same aside)
              | inr (completes, paid, answer) ↦ inr (
                record {
                  signed_by = s;
                  given = refl;
                  event = event;
                  constructed = constructed;
                  is_completed = completes;
                  is_paid = paid;
                },
                same ∙ answer,
              )
            ]
      ]
    ]

    -- Whatever it carries, a call keeps the books audited.
    handle_webhook-IsAudited :
        (signature : Option String) → IsAuditedDb app.db → IsAuditedDb (called signature).1.db
    handle_webhook-IsAudited signature books = elim (handle_webhook_outcome signature) [
      | inl (wallets, ledger) ↦ rw (wallets, ledger) books
      | inr (p, settles) ↦
          rw settles (settle_by_provider_ref-IsAudited orm cache ids p.event.object_id app books)
    ]
