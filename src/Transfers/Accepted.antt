-- ===== src/Transfers/Accepted.antt =====
-- A transfer that is accepted (src/features/transfers/transfers.service.ts), and the event that it leaves
-- in the outbox.
use lior_paris_wallet.Prelude.{
  ℕ, String, ◌≡◌, ◌∙◌, ◌++◌, ◌∷◌, [], refl, sym, ap, none, true, ◌==◌, Memᴰ, arith, inl, inr,
  Option-cases, Bool-cases, str_eq,
}
use lior_paris_wallet.Result.{Result, ok, err}
use lior_paris_wallet.Orm.{Orm}
use lior_paris_wallet.App.{App, Cache}
use lior_paris_wallet.Entities.{
  Wallet, OutboxEvent, TransferPayload, of_transfer, transfer_completed,
}
use lior_paris_wallet.Outbox.{is_pending}
use lior_paris_wallet.Wallet.Repository.{find_by_wallet_tag, find_by_user_id_and_currency}
use lior_paris_wallet.Wallet.Service.{email_of}
use lior_paris_wallet.Transfers.Repository.{find_by_idempotency_key}
use lior_paris_wallet.Transfers.Between.{Transferred, between_outcome, between_event}
use lior_paris_wallet.Transfers.Safety.{Initiated, initiated, recipient, sender}
use lior_paris_wallet.Transfers.Service.{
  InitiateTransferDto, TransferIds, initiate_transfer, transfer_event,
}

module _ (orm : Orm) (cache : Cache) (ids : TransferIds) (from_user_id : ℕ) (email : String)
    (input : InitiateTransferDto) where
  -- What the event of a transfer tells: the amount and the currency, the email of the sender's token, and
  -- that of the user that the recipient's wallet names, if the user is there.
  pub record IsEventOf (app : App) (e : OutboxEvent) (p : TransferPayload) : Type 0 where
    pub to : Wallet
    pub to_found : Memᴰ to app.db.wallets
    pub addressed : to.wallet_tag ≡ input.to_wallet_tag
    pub completed : e.event_name ≡ transfer_completed
    pub payload : e.payload_json ≡ of_transfer p
    pub amount : p.amount ≡ input.amount
    pub currency : p.currency ≡ input.currency
    pub sender_email : p.from_user_email ≡ email
    pub recipient_email :
        p.to_user_email ≡ email_of (orm.find_one (λ u. u.id == to.user_id) app.db.users)

  -- A request that returns, and whose key is new, has passed every guard.
  initiate_ok :
      (app : App)
      → (initiate_transfer orm cache ids from_user_id email input app).0 ≡ ok tt
      → orm.find_one (λ t. str_eq t.idempotency_key input.idempotency_key) app.db.transfers ≡ none
      → Initiated orm cache ids from_user_id email input app
  unfolding initiate_transfer find_by_wallet_tag find_by_user_id_and_currency
      find_by_idempotency_key
  initiate_ok app returned new_key =
      elim (Option-cases (recipient orm cache ids from_user_id email input app)) [
        | inl missing ↦ absurd (ground (arith, returned))
        | inr (to, found_to) ↦ elim (Bool-cases (str_eq to.currency input.currency)) [
          | inr differs ↦ absurd (ground (arith, returned))
          | inl currency ↦ elim (Bool-cases (from_user_id == to.user_id)) [
            | inl self ↦ absurd (ground (arith, returned))
            | inr other ↦ elim (Option-cases (sender orm cache ids from_user_id email input app)) [
              | inl missing ↦ absurd (ground (arith, returned))
              | inr (from, found_from) ↦
                  initiated orm cache ids from_user_id email input app to from found_to found_from
                    currency other new_key
            ]
          ]
        ]
      ]

  -- Such a request has moved the money.
  pub initiate-Transferred :
      (app : App)
      → (initiate_transfer orm cache ids from_user_id email input app).0 ≡ ok tt
      → orm.find_one (λ t. str_eq t.idempotency_key input.idempotency_key) app.db.transfers ≡ none
      → (r : Initiated orm cache ids from_user_id email input app) × Transferred orm cache ids
          from_user_id email input r.from_wallet r.to_wallet app
          (initiate_transfer orm cache ids from_user_id email input app).1
  initiate-Transferred app returned new_key =
      let r = initiate_ok app returned new_key in
      elim (between_outcome orm cache ids from_user_id email input r.from_wallet r.to_wallet app) [
        | inl (x, thrown, left) ↦ absurd (
            let c : err x ≡ ok tt =
              sym thrown ∙ sym (ap (λ (a : Result Unit × App). a.0) r.runs) ∙ returned in
            ground arith)
        | inr (done, moved) ↦ (r, rw r.runs moved)
      ]

  -- It has added an event to the outbox that is to be published.
  pub initiate-IsEventOf :
      (app : App)
      → (initiate_transfer orm cache ids from_user_id email input app).0 ≡ ok tt
      → orm.find_one (λ t. str_eq t.idempotency_key input.idempotency_key) app.db.transfers ≡ none
      → (e : OutboxEvent) × (p : TransferPayload) × IsEventOf app e p
        × (is_pending e ≡ true)
        × ((initiate_transfer orm cache ids from_user_id email input app).1.db.outbox
            ≡ app.db.outbox ++ e ∷ [])
  unfolding transfer_event
  initiate-IsEventOf app returned new_key =
      let (r, moved) = initiate-Transferred app returned new_key in
      let event =
        between_event orm cache ids from_user_id email input r.from_wallet r.to_wallet app.db in
      (
        event,
        _,
        record {
          to = r.to_wallet;
          to_found = r.to_found;
          addressed = r.addressed;
          completed = refl;
          payload = refl;
          amount = refl;
          currency = refl;
          sender_email = refl;
          recipient_email = refl;
        },
        refl,
        rw moved.moved.result refl,
      )
