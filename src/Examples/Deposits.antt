-- ===== src/Examples/Deposits.antt =====
-- Deposit requests and balances.
use lior_paris_wallet.Prelude.{ℕ, String, ◌≡◌, ◌⊎◌, true, none, some, [], ◌∷◌}
use lior_paris_wallet.Prelude.Int.{pos}
use lior_paris_wallet.Result.{ok, err, query_failed}
use lior_paris_wallet.Orm.Memory.{memory}
use lior_paris_wallet.App.Memory.{memory_cache}
use lior_paris_wallet.Entities.{Wallet}
use lior_paris_wallet.Payments.{PaymentGateway, Registry}
use lior_paris_wallet.Wallet.Service.{DepositDto}
use lior_paris_wallet.Wallet.Repository.{ensure_wallet}
use lior_paris_wallet.Wallet.Creation.{IsWalletOf, ensure_wallet_outcome}
use lior_paris_wallet.Wallet.Endings.{Requested}
use lior_paris_wallet.Wallet.Requests.{Unchanged, answered, deposit_outcome}
use lior_paris_wallet.Examples.Data.{app, db}

-- A gateway that opens a session for every amount.
abbrev open_gateway : PaymentGateway
open_gateway = record {
  supported_methods = "stripe" ∷ [];
  process_deposit = λ amount currency method metadata. ok (record {
    success = true;
    provider_ref = some "cs_3";
    checkout_url = some "https://checkout";
    requires_webhook = true;
    failure_reason = none;
  });
}

abbrev registry : Registry
registry = ("stripe", open_gateway) ∷ []

abbrev order : DepositDto
order = record {
  amount = pos 30;
  currency = "EUR";
  payment_method = "stripe";
  idempotency_key = "d3";
}

deposit_outcome_example :
    let (r, app') = answered memory memory_cache registry 23 1 order app in
    ((app' ≡ app) × Unchanged memory memory_cache registry 23 1 order app r)
    ⊎ Requested memory memory_cache registry 23 1 order app r app'
deposit_outcome_example = deposit_outcome memory memory_cache registry 23 1 order app

ensure_wallet_outcome_example :
    let (r, db') = ensure_wallet memory 13 1 "USD" "ada-0003" db in
    ((r ≡ err query_failed) × (db' ≡ db))
    ⊎ ((w : Wallet) × (r ≡ ok w)
        × IsWalletOf memory 1 "USD" w db'
        × ((id' : ℕ) (tag' : String)
            → (v : Wallet) × IsWalletOf memory 1 "USD" v db'
              × (ensure_wallet memory id' 1 "USD" tag' db' ≡ (ok v, db'))))
ensure_wallet_outcome_example = ensure_wallet_outcome memory 1 "USD" 13 "ada-0003" db
