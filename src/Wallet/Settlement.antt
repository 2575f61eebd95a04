-- ===== src/Wallet/Settlement.antt =====
-- What `settleTransaction` of src/features/wallet/wallet.repository.ts does to the tables, on every
-- branch.
use lior_paris_wallet.Prelude.{
  ℕ, ◌≡◌, false, ◌==◌, some, arith, [], ◌∷◌, ◌++◌, Memᴰ, inl, inr, Bool-cases, Option-cases, ==_iff,
}
use lior_paris_wallet.Prelude.Int.{ℤ, pos, ◌+ℤ◌, ltb_ℤ, ◌≤ℤ◌, ltb_ℤ-false, ltb_ℤ-ge}
use lior_paris_wallet.Prelude.Rows.{any, set_where}
use lior_paris_wallet.Result.{Result, ok, err}
use lior_paris_wallet.Orm.{Orm}
use lior_paris_wallet.Orm.Laws.{insert_cases}
use lior_paris_wallet.Entities.{
  Db, Wallet, LedgerEntry, LedgerEntryType, Transaction, TransactionStatus, OutboxEvent,
  ledger_clash, outbox_clash,
}
use lior_paris_wallet.Wallet.Repository.{settle_transaction, settle_body}

module _ (entry_id wallet_id : ℕ) (t : Transaction) (kind : LedgerEntryType) (change : ℤ) where
  abbrev pub settled_entry : Wallet → LedgerEntry
  settled_entry w = record {
    id = entry_id;
    wallet_id = wallet_id;
    type = kind;
    amount = t.amount;
    currency = w.currency;
    balance_after = w.balance +ℤ change;
    idempotency_key = t.idempotency_key;
  }

  -- The tables after a settlement that found the wallet `w`.
  abbrev pub settled_db : OutboxEvent → Wallet → Db → Db
  settled_db event w db = record db {
    wallets =
        set_where (λ v. v.id == wallet_id) (λ v. record v { balance = w.balance +ℤ change })
          db.wallets;
    transactions =
        set_where (λ u. u.id == t.id) (λ u. record u { status = TransactionStatus.completed })
          db.transactions;
    ledger = db.ledger ++ settled_entry w ∷ [];
    outbox = db.outbox ++ event ∷ [];
  }

  pub record Settled (event : OutboxEvent) (db db' : Db) : Type 0 where
    pub wallet : Wallet
    pub found : Memᴰ wallet db.wallets
    pub named : wallet.id ≡ wallet_id
    pub covered : pos 0 ≤ℤ wallet.balance +ℤ change
    pub new_key : any (ledger_clash (settled_entry wallet)) db.ledger ≡ false
    pub new_event : any (outbox_clash event) db.outbox ≡ false
    pub result : db' ≡ settled_db event wallet db

  -- A settlement throws and leaves the tables, or it has settled.
  abbrev pub SettleOutcome : OutboxEvent → Db → Result LedgerEntry × Db → Type 0
  SettleOutcome event db (ok e, db') = Settled event db db'
  SettleOutcome event db (err x, db') = db' ≡ db

  module _ (orm : Orm) (event : OutboxEvent) (db : Db) where
    -- The body's result where every step goes through.
    settle_body_ok :
        (w : Wallet)
        → orm.find_one (λ v. v.id == wallet_id) db.wallets ≡ some w
        → ltb_ℤ (w.balance +ℤ change) (pos 0) ≡ false
        → orm.insert ledger_clash (settled_entry w) db.ledger
          ≡ some (db.ledger ++ settled_entry w ∷ [])
        → orm.insert outbox_clash event db.outbox ≡ some (db.outbox ++ event ∷ [])
        → settle_body orm entry_id wallet_id t kind change event db ≡ (
          ok (settled_entry w),
          record db {
            wallets =
                orm.update
                  (λ v. v.id == wallet_id)
                  (λ v. record v { balance = w.balance +ℤ change })
                  db.wallets;
            transactions =
                orm.update
                  (λ u. u.id == t.id)
                  (λ u. record u { status = TransactionStatus.completed })
                  db.transactions;
            ledger = db.ledger ++ settled_entry w ∷ [];
            outbox = db.outbox ++ event ∷ [];
          },
        )
    unfolding settle_body
    settle_body_ok w found covered inserted appended = ground arith

    pub settle_outcome :
        SettleOutcome event db (settle_transaction orm entry_id wallet_id t kind change event db)
    unfolding settle_transaction
    settle_outcome =
        rw orm.transaction_lem
          (elim (Option-cases (orm.find_one (λ w. w.id == wallet_id) db.wallets)) [
            | inl missing ↦ ground arith
            | inr (w, found) ↦ elim (Bool-cases (ltb_ℤ (w.balance +ℤ change) (pos 0))) [
              | inl short ↦ ground arith
              | inr covered ↦ elim (insert_cases orm ledger_clash (settled_entry w) db.ledger) [
                | inl taken ↦ ground arith
                | inr (free, inserted) ↦ elim (insert_cases orm outbox_clash event db.outbox) [
                  | inl taken ↦ ground arith
                  | inr (new_event, appended) ↦
                      rw (settle_body_ok w found covered inserted appended) (record {
                        wallet = w;
                        found = (orm.find_one-some _ _ found).0;
                        named = (==_iff _ _).0 (orm.find_one-some _ _ found).1;
                        covered = ltb_ℤ-false (w.balance +ℤ change) (pos 0) covered;
                        new_key = free;
                        new_event = new_event;
                        result = simp orm.update_lem;
                      })
                ]
              ]
            ]
          ])

    -- A settlement goes through if the wallet is there, the new balance is not negative and the two
    -- new rows clash with none.
    pub settle_transaction_ok :
        (w : Wallet)
        → orm.find_one (λ v. v.id == wallet_id) db.wallets ≡ some w
        → pos 0 ≤ℤ w.balance +ℤ change
        → any (ledger_clash (settled_entry w)) db.ledger ≡ false
        → any (outbox_clash event) db.outbox ≡ false
        → settle_transaction orm entry_id wallet_id t kind change event db
          ≡ (ok (settled_entry w), settled_db event w db)
    unfolding settle_transaction
    settle_transaction_ok w found covered free new_event = rw orm.transaction_lem (
        rw
          (settle_body_ok w found (ltb_ℤ-ge (w.balance +ℤ change) (pos 0) covered)
            (rw (orm.insert_lem, free)) (rw (orm.insert_lem, new_event)))
          (simp orm.update_lem))
