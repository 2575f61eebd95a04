-- ===== src/Transfers/Between.antt =====
-- What `initiateTransfer` of src/features/transfers/transfers.service.ts does from the two wallets on
-- that it has read. The rows may be stale: other requests may have run since.
use lior_paris_wallet.Prelude.{
  ℕ, String, ◌≡◌, ◌⊎◌, refl, none, some, ◌==◌, [], ◌∷◌, ◌++◌, arith, inl, inr,
}
use lior_paris_wallet.Result.{Result, Exception, ok, err, query_failed}
use lior_paris_wallet.Orm.{Orm}
use lior_paris_wallet.Orm.Laws.{insert_cases}
use lior_paris_wallet.App.{App, Cache}
use lior_paris_wallet.Entities.{Db, Wallet, Transfer, TransferStatus, OutboxEvent, transfer_clash}
use lior_paris_wallet.Users.Repository.{find_user_by_id}
use lior_paris_wallet.Wallet.Service.{balance_key, invalidate_balance_cache}
use lior_paris_wallet.Transfers.Repository.{create_transfer, execute_transfer}
use lior_paris_wallet.Transfers.Movement.{Moved, MoveOutcome, execute_outcome}
use lior_paris_wallet.Transfers.Service.{
  InitiateTransferDto, TransferIds, transfer_event, transfer_between,
}

module _ (orm : Orm) (cache : Cache) (ids : TransferIds) (from_user_id : ℕ) (email : String)
    (input : InitiateTransferDto) (from to : Wallet) where
  -- The row that `createTransfer` saves.
  abbrev pub new_transfer : Transfer
  new_transfer = record {
    id = ids.transfer_id;
    from_user_id = from_user_id;
    to_user_id = to.user_id;
    amount = input.amount;
    currency = input.currency;
    status = TransferStatus.pending;
    idempotency_key = input.idempotency_key;
    failure_reason = none;
  }

  abbrev pub created_db : Db → Db
  created_db db = record db { transfers = db.transfers ++ new_transfer ∷ [] }

  abbrev pub between_event : Db → OutboxEvent
  between_event db =
      transfer_event ids new_transfer email (orm.find_one (λ u. u.id == from_user_id) db.users)
        (orm.find_one (λ u. u.id == to.user_id) db.users)

  pub record Transferred (app app' : App) : Type 0 where
    pub moved :
        Moved ids.debit_id ids.credit_id new_transfer from.id to.id
          (between_event app.db)
          (created_db app.db)
          app'.db
    pub evicted :
        app'.cache
        ≡ cache.del
            (balance_key to.user_id input.currency)
            (cache.del (balance_key from_user_id input.currency) app.cache)

  -- A request that does not move money throws, and leaves at most a new row of its own.
  abbrev pub BetweenOutcome : App → Result Unit × App → Type 0
  BetweenOutcome app (r, app') =
      ((x : Exception) × (r ≡ err x)
        × ((app' ≡ app) ⊎ (app' ≡ record app { db = created_db app.db })))
      ⊎ ((r ≡ ok tt) × Transferred app app')

  module _ (app : App) where
    abbrev pub movement : Result Unit × Db
    movement =
        execute_transfer orm ids.debit_id ids.credit_id new_transfer from.id to.id
          (between_event app.db) (created_db app.db)

    pub between_refused :
        orm.insert transfer_clash new_transfer app.db.transfers ≡ none
        → transfer_between orm cache ids from_user_id email input from to app
          ≡ (err query_failed, app)
    unfolding transfer_between create_transfer find_user_by_id
    between_refused taken = ground arith

    module _
        (created : orm.insert transfer_clash new_transfer app.db.transfers
          ≡ some (app.db.transfers ++ new_transfer ∷ [])) where
      pub between_commits :
          (db' : Db)
          → movement ≡ (ok tt, db')
          → transfer_between orm cache ids from_user_id email input from to app ≡ (
            ok tt,
            record {
              db = db';
              cache =
                  cache.del
                    (balance_key to.user_id input.currency)
                    (cache.del (balance_key from_user_id input.currency) app.cache);
            },
          )
      unfolding transfer_between create_transfer find_user_by_id invalidate_balance_cache
      between_commits db' done = ground arith

      pub between_throws :
          (x : Exception) (db' : Db)
          → movement ≡ (err x, db')
          → transfer_between orm cache ids from_user_id email input from to app
            ≡ (err x, record app { db = db' })
      unfolding transfer_between create_transfer find_user_by_id
      between_throws x db' failed = ground arith

      between_by :
          (r : Result Unit × Db)
          → movement ≡ r
          → MoveOutcome ids.debit_id ids.credit_id new_transfer from.id to.id
              (between_event app.db)
              (created_db app.db)
              r
          → BetweenOutcome app (transfer_between orm cache ids from_user_id email input from to app)
      between_by (ok tt, db') q done =
          rw (between_commits db' q) (inr (refl, record { moved = done; evicted = refl }))
      between_by (err x, db') q same = rw (between_throws x db' q, same) (inl (x, refl, inr refl))

    -- From two rows, stale or not: the request throws and leaves at most its own pending row, or the
    -- money moves in one transaction and both cached balances go.
    pub between_outcome :
        BetweenOutcome app (transfer_between orm cache ids from_user_id email input from to app)
    between_outcome = elim (insert_cases orm transfer_clash new_transfer app.db.transfers) [
      | inl taken ↦ rw (between_refused taken) (inl (query_failed, refl, inl refl))
      | inr (new_key, created) ↦ between_by created movement refl (
          execute_outcome ids.debit_id ids.credit_id new_transfer from.id to.id orm
            (between_event app.db) (created_db app.db))
    ]
