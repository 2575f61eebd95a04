-- ===== src/Examples/Unanswered.antt =====
-- Bob deposits 0.40 EUR; Stripe creates the session, and opossum gives up on the call before the answer.
-- Bob asks again with the same key, and pays the session.
use lior_paris_wallet.Prelude.{◌≡◌, refl, inr, some, none}
use lior_paris_wallet.Result.{Exception, ok, err, provider_error}
use lior_paris_wallet.Orm.Memory.{memory}
use lior_paris_wallet.App.Memory.{memory_cache}
use lior_paris_wallet.Entities.{transaction_clash}
use lior_paris_wallet.CircuitBreaker.{Breaker}
use lior_paris_wallet.Payments.{stripe_gateway, stripe_process_deposit, new_registry, resolve}
use lior_paris_wallet.Wallet.Repository.{has_provider_ref}
use lior_paris_wallet.Wallet.Service.{deposit}
use lior_paris_wallet.Wallet.Webhook.{handle_webhook}
use lior_paris_wallet.Wallet.Payment.{stripe_registry}
use lior_paris_wallet.Wallet.Unanswered.{IsRejected, unanswered, deposit-unanswered}
use lior_paris_wallet.Examples.Data.{app, bob_wallet, later_ids}
use lior_paris_wallet.Examples.Payments.{stripe, bob_deposit, session_paid, construct}

abbrev timed_out : Exception
timed_out = provider_error "Timed out after 10000ms"

abbrev late_breaker : Breaker
late_breaker = record { fire = λ call. err timed_out; fire_lem = λ call. inr (timed_out, refl) }

bob-IsRejected :
    IsRejected memory memory_cache
      (stripe_registry late_breaker stripe)
      23
      2
      bob_deposit
      app
      timed_out
unfolding transaction_clash resolve stripe_gateway stripe_process_deposit new_registry
bob-IsRejected = record {
  unused = refl;
  wallet = bob_wallet;
  owned = refl;
  free = refl;
  gateway = stripe_gateway late_breaker stripe;
  supported = refl;
  rejected = refl;
}

deposit-unanswered_example :
    let registry = stripe_registry late_breaker stripe in
    let after = unanswered memory memory_cache registry 23 2 bob_deposit app in
    (deposit memory memory_cache registry 23 2 bob_deposit app ≡ (err timed_out, after))
    × (deposit memory memory_cache registry 24 2 bob_deposit after ≡ (ok none, after))
    × (handle_webhook memory memory_cache construct "whsec" later_ids "{}" (some "whsec{}") after
        ≡ (ok tt, after))
unfolding has_provider_ref
deposit-unanswered_example =
    deposit-unanswered memory memory_cache (stripe_registry late_breaker stripe) 23 2 bob_deposit
      app construct "whsec" later_ids timed_out bob-IsRejected (stripe_registry late_breaker stripe)
      24 2 bob_deposit refl "{}" "whsec{}" session_paid refl refl refl
