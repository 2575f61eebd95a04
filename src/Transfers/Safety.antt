-- ===== src/Transfers/Safety.antt =====
-- `initiateTransfer` of src/features/transfers/transfers.service.ts as a whole.
use lior_paris_wallet.Prelude.{
  ℕ, String, ◌≡◌, ◌≢◌, ◌⊎◌, ◌∙◌, ◌&&◌, refl, sym, ap, Option, none, some, true, false, ◌==◌, Memᴰ,
  arith, inl, inr, Option-cases, Bool-cases, str_eq, eq_iff,
}
use lior_paris_wallet.Prelude.Int.{pos, ◌≤ℤ◌}
use lior_paris_wallet.Orm.{Orm}
use lior_paris_wallet.App.{App, Cache}
use lior_paris_wallet.Entities.{Wallet}
use lior_paris_wallet.Ledger.{IsAuditedDb, total_balance, wallet_id_of}
use lior_paris_wallet.Prelude.Keys.{eq_of_key}
use lior_paris_wallet.Wallet.Repository.{find_by_wallet_tag, find_by_user_id_and_currency}
use lior_paris_wallet.Transfers.Repository.{find_by_idempotency_key}
use lior_paris_wallet.Transfers.Between.{new_transfer, between_outcome}
use lior_paris_wallet.Transfers.Conservation.{Moved-IsAudited, total-Moved}
use lior_paris_wallet.Transfers.Service.{
  InitiateTransferDto, TransferIds, transfer_between, initiate_transfer,
}

module _ (orm : Orm) (cache : Cache) (ids : TransferIds) (from_user_id : ℕ) (email : String)
    (input : InitiateTransferDto) where
  -- A request that passes every guard: the two rows that it has read.
  pub record Initiated (app : App) : Type 0 where
    pub from_wallet : Wallet
    pub to_wallet : Wallet
    pub from_found : Memᴰ from_wallet app.db.wallets
    pub to_found : Memᴰ to_wallet app.db.wallets
    pub from_owner : from_wallet.user_id ≡ from_user_id
    pub other_owner : from_user_id ≢ to_wallet.user_id
    pub from_currency : from_wallet.currency ≡ input.currency
    pub to_currency : to_wallet.currency ≡ input.currency
    pub addressed : to_wallet.wallet_tag ≡ input.to_wallet_tag
    pub first_use :
        orm.find_one (λ t. str_eq t.idempotency_key input.idempotency_key) app.db.transfers ≡ none
    pub runs :
        initiate_transfer orm cache ids from_user_id email input app
        ≡ transfer_between orm cache ids from_user_id email input from_wallet to_wallet app

  module _ (app : App) where
    abbrev pub recipient : Option Wallet
    recipient = orm.find_one (λ w. str_eq w.wallet_tag input.to_wallet_tag) app.db.wallets

    abbrev pub sender : Option Wallet
    sender =
        orm.find_one (λ w. w.user_id == from_user_id && str_eq w.currency input.currency)
          app.db.wallets

    pub initiated :
        (to from : Wallet)
        → recipient ≡ some to
        → sender ≡ some from
        → str_eq to.currency input.currency ≡ true
        → (from_user_id == to.user_id) ≡ false
        → orm.find_one (λ t. str_eq t.idempotency_key input.idempotency_key) app.db.transfers ≡ none
        → Initiated app
    unfolding initiate_transfer find_by_wallet_tag find_by_user_id_and_currency
        find_by_idempotency_key
    initiated to from found_to found_from currency other new_key =
        let is_from = (orm.find_one-some _ _ found_from).1 in
        let is_to = (orm.find_one-some _ _ found_to).1 in
        record {
          from_wallet = from;
          to_wallet = to;
          from_found = (orm.find_one-some _ _ found_from).0;
          to_found = (orm.find_one-some _ _ found_to).0;
          from_owner = ground (arith, is_from);
          other_owner = ground (arith, other);
          from_currency = ground (arith, is_from, eq_iff from.currency input.currency);
          to_currency = ground (arith, currency, eq_iff to.currency input.currency);
          addressed = ground (arith, is_to, eq_iff to.wallet_tag input.to_wallet_tag);
          first_use = new_key;
          runs = ground (arith, currency, other, new_key);
        }

    -- A request that a guard stops, or whose key has been used, changes nothing.
    pub initiate_cases :
        ((initiate_transfer orm cache ids from_user_id email input app).1 ≡ app) ⊎ Initiated app
    unfolding initiate_transfer find_by_wallet_tag find_by_user_id_and_currency
        find_by_idempotency_key
    initiate_cases = elim (Option-cases recipient) [
      | inl missing ↦ inl (ground arith)
      | inr (to, found_to) ↦ elim (Bool-cases (str_eq to.currency input.currency)) [
        | inr differs ↦ inl (ground arith)
        | inl currency ↦ elim (Bool-cases (from_user_id == to.user_id)) [
          | inl self ↦ inl (ground arith)
          | inr other ↦
              elim (Option-cases (
                orm.find_one (λ t. str_eq t.idempotency_key input.idempotency_key)
                  app.db.transfers)) [
                    | inr (t, used) ↦ inl (ground arith)
                    | inl new_key ↦ elim (Option-cases sender) [
                      | inl missing ↦ inl (ground arith)
                      | inr (from, found_from) ↦
                          inr (initiated to from found_to found_from currency other new_key)
                    ]
                  ]
        ]
      ]
    ]

  -- What holds of the books before and after a request: audited still, and no money made or lost.
  abbrev pub IsConserved : App → App → Type 0
  IsConserved app app' =
      IsAuditedDb app'.db × (total_balance app'.db.wallets ≡ total_balance app.db.wallets)

  -- Between two different wallets, from rows stale or not, the books are conserved.
  pub transfer_between-IsConserved :
      (from to : Wallet) (app : App)
      → from.id ≢ to.id
      → pos 0 ≤ℤ input.amount
      → IsAuditedDb app.db
      → IsConserved app (transfer_between orm cache ids from_user_id email input from to app).1
  transfer_between-IsConserved from to app apart positive books =
      elim (between_outcome orm cache ids from_user_id email input from to app) [
        | inl (x, thrown, left) ↦ elim left [
          | inl same ↦ rw same (books, refl)
          | inr created ↦ rw created (books, refl)
        ]
        | inr (done, moved) ↦
            let t = new_transfer orm cache ids from_user_id email input from to in
            (
              Moved-IsAudited ids.debit_id ids.credit_id t apart moved.moved books positive,
              total-Moved ids.debit_id ids.credit_id t apart moved.moved books,
            )
      ]

  -- The rows that a request has read are of different users, so they are different wallets.
  pub Initiated-apart :
      {app : App} (r : Initiated app) → IsAuditedDb app.db → r.from_wallet.id ≢ r.to_wallet.id
  Initiated-apart {app} r books same =
      let one =
        eq_of_key wallet_id_of app.db.wallets books.wallet_ids r.from_found r.to_found same in
      r.other_owner (sym r.from_owner ∙ ap (λ (w : Wallet). w.user_id) one)

  -- Whatever the request, with an amount that passes validation, the books are conserved.
  pub initiate_transfer-IsConserved :
      (app : App)
      → pos 1 ≤ℤ input.amount
      → IsAuditedDb app.db
      → IsConserved app (initiate_transfer orm cache ids from_user_id email input app).1
  initiate_transfer-IsConserved app valid books = elim (initiate_cases app) [
    | inl same ↦ rw same (books, refl)
    | inr r ↦ rw r.runs (
        transfer_between-IsConserved r.from_wallet r.to_wallet app (Initiated-apart r books)
          (omega arith) books)
  ]
