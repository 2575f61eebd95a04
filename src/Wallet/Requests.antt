-- ===== src/Wallet/Requests.antt =====
-- What a deposit request (`deposit` of src/features/wallet/wallet.service.ts) leaves behind.
use lior_paris_wallet.Prelude.{
  ℕ, String, ◌≡◌, ◌⊎◌, ◌==◌, ◌&&◌, refl, inl, inr, true, false, Option, none, some, List, Memᴰ,
  Option-cases, Bool-cases, str_eq, eq_iff, arith,
}
use lior_paris_wallet.Prelude.Rows.{any, any-false}
use lior_paris_wallet.Result.{Result, Exception, ok, err, query_failed, not_found}
use lior_paris_wallet.Orm.{Orm}
use lior_paris_wallet.App.{App, Cache}
use lior_paris_wallet.Entities.{Wallet, Transaction, transaction_clash}
use lior_paris_wallet.Payments.{Registry, resolve}
use lior_paris_wallet.Wallet.Repository.{
  find_by_user_id_and_currency, find_transaction_by_idempotency_key, create_transaction,
}
use lior_paris_wallet.Wallet.Service.{DepositDto, conclude_deposit, deposit_once, deposit}
use lior_paris_wallet.Wallet.Endings.{
  created_row, with_transactions, created_rows, asked, unsupported, rejected, Requested,
  Requested-pending, concluded,
}

module _ (orm : Orm) (cache : Cache) (registry : Registry) (id user_id : ℕ) (input : DepositDto)
    (app : App) where
  abbrev new_row : Transaction
  new_row = created_row orm cache registry id user_id input app

  abbrev new_rows : List Transaction
  new_rows = created_rows orm cache registry id user_id input app

  -- The state with the new row.
  abbrev created_app : App
  created_app = with_transactions orm cache registry id user_id input app new_rows

  abbrev pub answered : Result (Option String) × App
  answered = deposit orm cache registry id user_id input app

  Result-cases :
      {A : Type 0} (r : Result A) → ((x : Exception) × (r ≡ err x)) ⊎ ((a : A) × (r ≡ ok a))
  Result-cases (ok a) = inr (a, refl)
  Result-cases (err x) = inl (x, refl)

  -- The request, from the new row on.
  module _ (w : Wallet)
      (unused : orm.find_one
          (λ t. str_eq t.idempotency_key input.idempotency_key)
          app.db.transactions
        ≡ none)
      (owned : orm.find_one
          (λ w. w.user_id == user_id && str_eq w.currency input.currency)
          app.db.wallets
        ≡ some w)
      (free : any (transaction_clash new_row) app.db.transactions ≡ false)
      (created : orm.insert transaction_clash new_row app.db.transactions ≡ some new_rows) where
    requested : Requested orm cache registry id user_id input app answered.0 answered.1
    unfolding deposit deposit_once find_transaction_by_idempotency_key find_by_user_id_and_currency
        create_transaction
    requested = elim (Result-cases (resolve registry input.payment_method)) [
      | inl (x, none_takes) ↦
          let end : answered ≡ (err x, created_app) = ground arith in
          rw end (
            Requested-pending orm cache registry id user_id input app free (err x)
              (unsupported x none_takes))
      | inr (gateway, found) ↦
          elim (Result-cases (asked orm cache registry id user_id input app gateway)) [
            | inl (x, failed) ↦
                let end : answered ≡ (err x, created_app) = ground arith in
                rw end (
                  Requested-pending orm cache registry id user_id input app free (err x)
                    (rejected gateway x found failed))
            | inr (answer, said) ↦
                let end : answered ≡ conclude_deposit orm cache new_row answer created_app =
                  ground arith in
                rw end
                  (concluded orm cache registry id user_id input app free gateway answer found said)
          ]
    ]

  -- Why a request changes nothing, and what it answers then.
  abbrev pub Unchanged : Result (Option String) → Type 0
  Unchanged r =
      ((t : Transaction) × Memᴰ t app.db.transactions
        × (t.idempotency_key ≡ input.idempotency_key)
        × (r ≡ ok none))
      ⊎ (((w : Wallet)
            → Memᴰ w app.db.wallets
            → (w.user_id == user_id && str_eq w.currency input.currency) ≡ false)
          × (r ≡ err (not_found "Wallet not found")))
      ⊎ ((any (transaction_clash new_row) app.db.transactions ≡ true) × (r ≡ err query_failed))

  -- A deposit request changes nothing if its key is used, and answers no URL, if its user has no wallet in the
  -- currency, or if its row clashes with another, and throws that. Otherwise it adds its row and changes no
  -- other row and no other table. If no gateway takes the method, or the gateway rejects, the request throws
  -- that and the row stays pending. If the provider declines, the request throws that and the row has failed
  -- with the provider's reason. If the provider accepts, the row is pending with the reference, if one is given,
  -- and the request answers the URL, or throws if no webhook is to settle it.
  pub deposit_outcome :
      ((answered.1 ≡ app) × Unchanged answered.0)
      ⊎ Requested orm cache registry id user_id input app answered.0 answered.1
  unfolding deposit deposit_once find_transaction_by_idempotency_key find_by_user_id_and_currency
      create_transaction
  deposit_outcome =
      elim (Option-cases
        (orm.find_one (λ t. str_eq t.idempotency_key input.idempotency_key) app.db.transactions)) [
          | inr (t, used) ↦
              let (m, fits) = orm.find_one-some _ _ used in
              let same = (eq_iff t.idempotency_key input.idempotency_key).0 fits in
              inl (ground arith, inl (t, m, same, ground arith))
          | inl unused ↦
              elim (Option-cases (
                orm.find_one (λ w. w.user_id == user_id && str_eq w.currency input.currency)
                  app.db.wallets)) [
                    | inl missing ↦
                        let unfit = orm.find_one-none _ _ missing in
                        inl (
                          ground arith,
                          inr (inl (λ w m. any-false _ app.db.wallets unfit m, ground arith)),
                        )
                    | inr (w, owned) ↦
                        elim (Bool-cases (any (transaction_clash new_row) app.db.transactions)) [
                          | inl taken ↦
                              let refused : orm.insert transaction_clash new_row app.db.transactions
                                  ≡ none =
                                rw (orm.insert_lem, taken) refl in
                              inl (ground arith, inr (inr (taken, ground arith)))
                          | inr free ↦
                              let created : orm.insert transaction_clash new_row app.db.transactions
                                  ≡ some new_rows =
                                rw (orm.insert_lem, free) refl in
                              inr (requested w unused owned free created)
                        ]
                  ]
        ]
