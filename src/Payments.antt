-- ===== src/Payments.antt =====
-- src/features/payments/gateways: the gateway interface, the registry and the Stripe gateway, over
-- the circuit breaker of src/shared. Stripe's client is an interface.
use Prim.Native.String
use lior_paris_wallet.Prelude.{
  ℕ, String, Bool, true, Option, none, some, List, [], ◌∷◌, str_eq, if◌then◌else◌,
}
use lior_paris_wallet.Prelude.Int.{ℤ}
use lior_paris_wallet.Prelude.Texts.{to_lower_case}
use lior_paris_wallet.CircuitBreaker.{Breaker, Opossum, CircuitBreakerOptions, new_circuit_breaker}
use lior_paris_wallet.Result.{Result, ok, err, bad_request}

pub record PaymentGatewayResult : Type 0 where
  pub success : Bool
  pub provider_ref : Option String
  pub checkout_url : Option String
  pub requires_webhook : Bool
  pub failure_reason : Option String

-- `{ transactionId, userId }`
pub record Metadata : Type 0 where
  pub transaction_id : ℕ
  pub user_id : ℕ

-- A rejected promise is an `err`.
pub record PaymentGateway : Type 0 where
  pub supported_methods : List String
  pub process_deposit : ℤ → String → String → Metadata → Result PaymentGatewayResult

abbrev pub Registry : Type 0
Registry = List (String × PaymentGateway)

-- The inner loop of the constructor; `Map.set` replaces, so the newest pair comes first.
register_methods : PaymentGateway → List String → Registry → Registry
register_methods gateway [] registry = registry
register_methods gateway (method ∷ methods) registry =
    register_methods gateway methods ((method, gateway) ∷ registry)

register_from : List PaymentGateway → Registry → Registry
register_from [] registry = registry
register_from (gateway ∷ gateways) registry =
    register_from gateways (register_methods gateway gateway.supported_methods registry)

unfoldable pub new_registry : List PaymentGateway → Registry
unfolding register_from register_methods
new_registry gateways = register_from gateways []

unfoldable pub get_gateway : String → Registry → Option PaymentGateway
get_gateway method [] = none
get_gateway method ((m, gateway) ∷ registry) =
    if str_eq m method then some gateway else get_gateway method registry

abbrev found_gateway : String → Option PaymentGateway → Result PaymentGateway
found_gateway method none = err (bad_request (String.◌++◌ "Unsupported payment method: " method))
found_gateway method (some gateway) = ok gateway

unfoldable pub resolve : Registry → String → Result PaymentGateway
unfolding get_gateway
resolve registry method = found_gateway method (get_gateway method registry)

pub record CheckoutSession : Type 0 where
  pub id : String
  pub url : String

-- `stripe.checkout.sessions.create`, of the currency, the amount, the product's name and the
-- metadata; the other fields are constants or stand in the configuration.
pub record StripeClient : Type 0 where
  pub create_session :
      (currency : String) → (unit_amount : ℤ) → (name : String) → Metadata → Result CheckoutSession

abbrev pub session_result : Result CheckoutSession → Result PaymentGatewayResult
session_result (err e) = err e
session_result (ok session) = ok (record {
  success = true;
  provider_ref = some session.id;
  checkout_url = some session.url;
  requires_webhook = true;
  failure_reason = none;
})

unfoldable pub stripe_process_deposit :
    Breaker → StripeClient → ℤ → String → String → Metadata → Result PaymentGatewayResult
stripe_process_deposit breaker stripe amount currency payment_method metadata = breaker.fire (
    session_result (
      stripe.create_session (to_lower_case currency) amount
        (String.◌++◌ "Wallet Deposit (" (String.◌++◌ currency ")")) metadata))

unfoldable pub stripe_gateway : Breaker → StripeClient → PaymentGateway
unfolding stripe_process_deposit
stripe_gateway breaker stripe = record {
  supported_methods = "stripe" ∷ [];
  process_deposit = stripe_process_deposit breaker stripe;
}

abbrev pub stripe_options : CircuitBreakerOptions
stripe_options = record {
  error_threshold_percentage = some 50;
  reset_timeout = some 30000;
  rolling_count_timeout = none;
  rolling_count_buckets = none;
  volume_threshold = some 5;
  timeout = some 10000;
}

-- The constructor of the gateway.
unfoldable pub new_stripe_gateway : Opossum → StripeClient → PaymentGateway
unfolding stripe_gateway new_circuit_breaker
new_stripe_gateway opossum stripe =
    stripe_gateway (new_circuit_breaker opossum "Stripe" stripe_options) stripe
