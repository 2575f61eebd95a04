-- ===== src/Wallet/Webhook.antt =====
-- src/features/wallet/stripe-webhook.controller.ts. The raw body is a text, the log is left out, and
-- `stripe.webhooks.constructEvent`, which the repository does not contain, is an interface.
use lior_paris_wallet.Prelude.{String, Option, none, some, str_eq, if◌then◌else◌}
use lior_paris_wallet.Result.{Action, pure, throw, bad_request}
use lior_paris_wallet.Orm.{Orm}
use lior_paris_wallet.App.{App, Cache}
use lior_paris_wallet.Wallet.Service.{
  SettleIds, truthy, settle_by_provider_ref, fail_by_provider_ref,
}

pub record StripeWebhookEvent : Type 0 where
  pub id : String
  pub type : String
  pub object_id : String
  pub payment_status : Option String

-- `constructEvent(body, signature, secret)`: the event of a body that was signed with the secret; it
-- throws for any other.
abbrev pub ConstructEvent : Type 0
ConstructEvent = (body signature secret : String) → Option StripeWebhookEvent

module _ (orm : Orm) (cache : Cache) (construct_event : ConstructEvent)
    (webhook_secret : String) where
  is_paid : Option String → Action App Unit → Action App Unit
  is_paid none settle = pure tt
  is_paid (some status) settle = if str_eq status "paid" then settle else pure tt

  unfoldable pub handle_event : SettleIds → StripeWebhookEvent → Action App Unit
  unfolding is_paid
  handle_event ids event =
      if str_eq event.type "checkout.session.completed"
      then is_paid event.payment_status (settle_by_provider_ref orm cache ids event.object_id)
      else (if str_eq event.type "checkout.session.expired"
          then fail_by_provider_ref orm cache event.object_id "Checkout session expired"
          else pure tt)

  handle_constructed : SettleIds → Option StripeWebhookEvent → Action App Unit
  handle_constructed ids none = throw (bad_request "Invalid webhook signature")
  handle_constructed ids (some event) = handle_event ids event

  handle_signed : SettleIds → (body : String) → (signature : Option String) → Action App Unit
  unfolding handle_constructed
  handle_signed ids body none = throw (bad_request "Missing stripe-signature header")
  handle_signed ids body (some signature) =
      handle_constructed ids (construct_event body signature webhook_secret)

  -- A call that returns answers `{ received: true }`.
  unfoldable pub handle_webhook :
      SettleIds → (body : String) → (signature : Option String) → Action App Unit
  unfolding handle_signed
  handle_webhook ids body signature = handle_signed ids body (truthy signature)
