-- ===== src/Examples/Payments.antt =====
-- Bob deposits 0.40 EUR and pays.
use Prim.Native.String.{◌++◌ as ◌&◌}
use lior_paris_wallet.Prelude.{◌≡◌, refl, inl, some, none, arith, str_eq, if◌then◌else◌}
use lior_paris_wallet.Prelude.Int.{pos}
use lior_paris_wallet.Prelude.Texts.{to_lower_case}
use lior_paris_wallet.Result.{ok}
use lior_paris_wallet.Orm.Memory.{memory}
use lior_paris_wallet.App.Memory.{memory_cache}
use lior_paris_wallet.Entities.{transaction_clash, ledger_clash, outbox_clash}
use lior_paris_wallet.CircuitBreaker.{Breaker}
use lior_paris_wallet.Payments.{StripeClient, CheckoutSession}
use lior_paris_wallet.Wallet.Repository.{has_provider_ref}
use lior_paris_wallet.Wallet.Service.{DepositDto, deposit, build_outbox_payload}
use lior_paris_wallet.Wallet.Webhook.{StripeWebhookEvent, ConstructEvent, handle_webhook}
use lior_paris_wallet.Wallet.Payment.{stripe_registry, IsPayable, IsPaidCall}
use lior_paris_wallet.Wallet.Paid.{HasArrived, deposit-HasArrived}
use lior_paris_wallet.Examples.Data.{app, bob_wallet, later_ids}
use lior_paris_wallet.Examples.Money.{db-IsAudited}

abbrev session : CheckoutSession
session = record { id = "cs_3"; url = "https://pay/cs_3" }

abbrev pub stripe : StripeClient
stripe = record { create_session = λ currency amount name metadata. ok session }

abbrev closed_breaker : Breaker
closed_breaker = record { fire = λ call. call; fire_lem = λ call. inl refl }

abbrev pub bob_deposit : DepositDto
bob_deposit = record {
  amount = pos 40;
  currency = "EUR";
  payment_method = "stripe";
  idempotency_key = "d3";
}

bob-IsPayable :
    IsPayable memory memory_cache closed_breaker stripe 23 2 bob_deposit app bob_wallet session
unfolding transaction_clash has_provider_ref to_lower_case
bob-IsPayable = record {
  method = refl;
  unused = refl;
  owned = refl;
  free = refl;
  created = refl;
  closed = refl;
  referable = refl;
  new_session = refl;
}

abbrev pub session_paid : StripeWebhookEvent
session_paid = record {
  id = "evt_3";
  type = "checkout.session.completed";
  object_id = "cs_3";
  payment_status = some "paid";
}

abbrev pub construct : ConstructEvent
construct body signature secret =
    if str_eq signature (secret & body) then some session_paid else none

bob-IsPaidCall :
    IsPaidCall memory memory_cache closed_breaker stripe 23 2 bob_deposit app bob_wallet session
      bob-IsPayable construct "whsec" "{}" "whsec{}"
bob-IsPaidCall = record {
  given = refl;
  event = session_paid;
  constructed = refl;
  about = refl;
  is_completed = refl;
  is_paid = refl;
}

deposit-HasArrived_example :
    let (answer, app1) =
      deposit memory memory_cache (stripe_registry closed_breaker stripe) 23 2 bob_deposit app in
    let (r, app2) =
      handle_webhook memory memory_cache construct "whsec" later_ids "{}" (some "whsec{}") app1 in
    (answer ≡ ok (some "https://pay/cs_3"))
    × (r ≡ ok tt)
    × HasArrived memory memory_cache closed_breaker stripe 23 2 bob_deposit app bob_wallet session
        bob-IsPayable later_ids app2
unfolding ledger_clash outbox_clash build_outbox_payload
deposit-HasArrived_example =
    deposit-HasArrived memory memory_cache closed_breaker stripe 23 2 bob_deposit app bob_wallet
      session bob-IsPayable construct "whsec" "{}" "whsec{}" later_ids bob-IsPaidCall db-IsAudited
      (omega arith) refl refl
