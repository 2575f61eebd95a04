-- ===== src/Examples/Money.antt =====
-- Deposits and transfers.
use mathlib.Core.List.Memᴰ
use lior_paris_wallet.Prelude.{◌≡◌, ◌⊎◌, refl, inl, inr, true, some, none, [], ◌∷◌, arith}
use lior_paris_wallet.Prelude.Int.{pos, ◌+ℤ◌, ◌-ℤ◌}
use lior_paris_wallet.Orm.Memory.{memory}
use lior_paris_wallet.App.Memory.{memory_cache}
use lior_paris_wallet.Entities.{Db, TransferStatus, ledger_clash, transfer_clash, outbox_clash}
use lior_paris_wallet.Ledger.{IsAuditedDb, IsSolventDb, total_balance}
use lior_paris_wallet.Wallet.Service.{
  settle_found, settle_by_provider_ref, build_outbox_payload, invalidate_balance_cache,
}
use lior_paris_wallet.Users.Repository.{find_user_by_id}
use lior_paris_wallet.Wallet.Repository.{
  find_transaction_by_provider_ref, has_provider_ref, find_by_user_id_and_currency,
  find_by_wallet_tag, settle_transaction,
}
use lior_paris_wallet.Interleaving.{Reach, here, next, execute, Reach-IsSound}
use lior_paris_wallet.Bank.{Book, transfer, bank_of}
use lior_paris_wallet.Bank.Refinement.{Reach-refines}
use lior_paris_wallet.Wallet.Crediting.{CreditOutcome, credit_outcome}
use lior_paris_wallet.Wallet.Deposits.{settle_found_twice, settle_found_booked}
use lior_paris_wallet.Transfers.Service.{initiate_transfer, transfer_between, transfer_event}
use lior_paris_wallet.Transfers.Repository.{
  find_by_idempotency_key, create_transfer, execute_transfer, execute_body,
}
use lior_paris_wallet.Transfers.Safety.{
  IsConserved, Initiated, initiate_transfer-IsConserved, initiate_cases,
}
use lior_paris_wallet.Transfers.Between.{BetweenOutcome, between_outcome}
use lior_paris_wallet.Examples.Data.{
  first_event, first_deposit, first_entry, app, db, ada_wallet, bob_wallet, second_deposit,
  settle_ids, later_ids, transfer_ids, request,
}

pub db-IsAudited : IsAuditedDb db
unfolding ◌+ℤ◌
db-IsAudited = record {
  wallet_ids = (
    λ b m. elim (Memᴰ.cases_cons m) [ inl e ↦ ground (arith, e) | inr t ↦ absurd (Memᴰ.not-nil t) ],
    (λ b m. absurd (Memᴰ.not-nil m), tt),
  );
  balanced = λ w m. elim (Memᴰ.cases_cons m) [
    | inl e ↦ rw e refl
    | inr t ↦ rw (Memᴰ.eq_of_singleton t) refl
  ];
  covered = λ w m. elim (Memᴰ.cases_cons m) [
    | inl e ↦ rw e (omega arith)
    | inr t ↦ rw (Memᴰ.eq_of_singleton t) (omega arith)
  ];
  keys = (λ b m. absurd (Memᴰ.not-nil m), tt);
}

pub db-IsSolvent : IsSolventDb db
unfolding ◌+ℤ◌
db-IsSolvent = refl

settle_credits :
    (settle_by_provider_ref memory memory_cache settle_ids "cs_2" app).1.db.wallets
    ≡ ada_wallet ∷ record bob_wallet { balance = pos 70 } ∷ []
unfolding settle_by_provider_ref settle_found find_transaction_by_provider_ref has_provider_ref
    find_by_user_id_and_currency find_user_by_id settle_transaction build_outbox_payload
    invalidate_balance_cache ledger_clash outbox_clash ◌+ℤ◌
settle_credits = refl

transfer_moves :
    (initiate_transfer memory memory_cache transfer_ids 1 "ada@x.io" request app).1.db.wallets
    ≡ record ada_wallet { balance = pos 300 } ∷ record bob_wallet { balance = pos 200 } ∷ []
unfolding initiate_transfer find_by_wallet_tag find_by_idempotency_key transfer_between
    find_by_user_id_and_currency find_user_by_id create_transfer execute_transfer execute_body
    transfer_event invalidate_balance_cache transfer_clash ledger_clash outbox_clash ◌+ℤ◌ ◌-ℤ◌
transfer_moves = refl

abbrev pub after_transfer : Db
after_transfer =
    (execute_transfer memory 34 35
      (record {
        id = 51;
        from_user_id = 1;
        to_user_id = 2;
        amount = pos 200;
        currency = "EUR";
        status = TransferStatus.pending;
        idempotency_key = "t1";
        failure_reason = none;
      })
      11 12 first_event db).1

Reach-IsSound_example : IsAuditedDb after_transfer × IsSolventDb after_transfer
Reach-IsSound_example =
    Reach-IsSound memory (next here (execute 34 35 _ 11 12 first_event (omega arith) (omega arith)))
      db-IsAudited db-IsSolvent

abbrev one_transfer : Reach memory db after_transfer
one_transfer = next here (execute 34 35 _ 11 12 first_event (omega arith) (omega arith))

Reach-refines_example :
    Book
      (bank_of db)
      (record { order = transfer 11 12 (pos 200); accepted = true } ∷ [])
      (bank_of after_transfer)
unfolding execute_transfer execute_body ledger_clash outbox_clash ◌+ℤ◌ ◌-ℤ◌
Reach-refines_example = Reach-refines memory one_transfer db-IsAudited db-IsSolvent

initiate_transfer-IsConserved_example :
    IsConserved memory memory_cache transfer_ids 1 "ada@x.io" request app
      (initiate_transfer memory memory_cache transfer_ids 1 "ada@x.io" request app).1
initiate_transfer-IsConserved_example =
    initiate_transfer-IsConserved memory memory_cache transfer_ids 1 "ada@x.io" request app
      (omega arith) db-IsAudited

settle_found_twice_example :
    let app' = (settle_found memory memory_cache settle_ids (some second_deposit) app).1 in
    let app'' = (settle_found memory memory_cache later_ids (some second_deposit) app').1 in
    (total_balance app''.db.wallets ≡ total_balance app.db.wallets)
    ⊎ (total_balance app''.db.wallets ≡ total_balance app.db.wallets +ℤ pos 70)
settle_found_twice_example =
    settle_found_twice memory memory_cache settle_ids later_ids second_deposit app db-IsAudited

settle_found_booked_example :
    (settle_found memory memory_cache settle_ids (some first_deposit) app).1 ≡ app
settle_found_booked_example =
    settle_found_booked memory memory_cache settle_ids first_deposit app first_entry
      (Memᴰ.head refl) refl

initiate_cases_example :
    ((initiate_transfer memory memory_cache transfer_ids 1 "ada@x.io" request app).1 ≡ app)
    ⊎ Initiated memory memory_cache transfer_ids 1 "ada@x.io" request app
initiate_cases_example = initiate_cases memory memory_cache transfer_ids 1 "ada@x.io" request app

between_outcome_example :
    BetweenOutcome memory memory_cache transfer_ids 1 "ada@x.io" request ada_wallet bob_wallet app (
      transfer_between memory memory_cache transfer_ids 1 "ada@x.io" request ada_wallet bob_wallet
        app)
between_outcome_example =
    between_outcome memory memory_cache transfer_ids 1 "ada@x.io" request ada_wallet bob_wallet app

credit_outcome_example :
    CreditOutcome memory memory_cache settle_ids second_deposit app
      (settle_found memory memory_cache settle_ids (some second_deposit) app)
credit_outcome_example = credit_outcome memory memory_cache settle_ids second_deposit app
