-- ===== src/Transfers/Movement.antt =====
-- What `executeTransfer` of src/features/transfers/transfers.repository.ts does to the tables, on
-- every branch.
use mathlib.Core.List.Memᴰ
use lior_paris_wallet.Prelude.{
  ℕ, ◌≡◌, ◌⊎◌, refl, Option, some, false, ◌==◌, [], ◌∷◌, ◌++◌, Memᴰ, arith, inl, inr, Bool-cases,
  Option-cases, ==_iff, ltb,
}
use lior_paris_wallet.Prelude.Int.{pos, ◌+ℤ◌, ◌-ℤ◌, ◌≤ℤ◌, ltb_ℤ, ltb_ℤ-false}
use lior_paris_wallet.Prelude.Rows.{any, set_where}
use lior_paris_wallet.Result.{Result, ok, err, atomically}
use lior_paris_wallet.Orm.{Orm}
use lior_paris_wallet.Orm.Laws.{insert_cases}
use lior_paris_wallet.Entities.{
  Db, Wallet, LedgerEntry, Transfer, TransferStatus, OutboxEvent, ledger_clash, outbox_clash,
}
use lior_paris_wallet.Ledger.Posting.{set_balance}
use lior_paris_wallet.Transfers.Repository.{
  lock_order, pick, debit_entry, credit_entry, move_money, execute_body, execute_transfer,
}

module _ (debit_id credit_id : ℕ) (t : Transfer) (from_id to_id : ℕ) where
  abbrev pub debit : Wallet → LedgerEntry
  debit s = debit_entry debit_id t s (s.balance -ℤ t.amount)

  abbrev pub credit : Wallet → LedgerEntry
  credit r = credit_entry credit_id t r (r.balance +ℤ t.amount)

  -- The tables after a transfer from the wallet `s` to the wallet `r`.
  abbrev pub moved_db : OutboxEvent → (s r : Wallet) → Db → Db
  moved_db event s r db = record db {
    wallets =
        set_balance r.id (r.balance +ℤ t.amount)
          (set_balance s.id (s.balance -ℤ t.amount) db.wallets);
    transfers =
        set_where (λ u. u.id == t.id) (λ u. record u { status = TransferStatus.completed })
          db.transfers;
    ledger = (db.ledger ++ debit s ∷ []) ++ credit r ∷ [];
    outbox = db.outbox ++ event ∷ [];
  }

  pub record Moved (event : OutboxEvent) (db db' : Db) : Type 0 where
    pub sender : Wallet
    pub receiver : Wallet
    pub sender_found : Memᴰ sender db.wallets
    pub receiver_found : Memᴰ receiver db.wallets
    pub sender_named : sender.id ≡ from_id
    pub receiver_named : receiver.id ≡ to_id
    pub enough : pos 0 ≤ℤ sender.balance -ℤ t.amount
    pub new_debit : any (ledger_clash (debit sender)) db.ledger ≡ false
    pub new_credit : any (ledger_clash (credit receiver)) (db.ledger ++ debit sender ∷ []) ≡ false
    pub result : db' ≡ moved_db event sender receiver db

  -- A transfer throws and leaves the tables, or it has moved the money.
  abbrev pub MoveOutcome : OutboxEvent → Db → Result Unit × Db → Type 0
  MoveOutcome event db (ok e, db') = Moved event db db'
  MoveOutcome event db (err x, db') = db' ≡ db

  module _ (orm : Orm) (event : OutboxEvent) (db : Db) where
    module _ (first : Wallet) (second : Option Wallet) where
      move_money_ok :
          (s r : Wallet)
          → pick from_id first second ≡ some s
          → ltb_ℤ (s.balance -ℤ t.amount) (pos 0) ≡ false
          → pick to_id first second ≡ some r
          → orm.insert ledger_clash (debit s) db.ledger ≡ some (db.ledger ++ debit s ∷ [])
          → orm.insert ledger_clash (credit r) (db.ledger ++ debit s ∷ [])
            ≡ some ((db.ledger ++ debit s ∷ []) ++ credit r ∷ [])
          → orm.insert outbox_clash event db.outbox ≡ some (db.outbox ++ event ∷ [])
          → move_money orm debit_id credit_id t from_id to_id event first second db ≡ (
            ok tt,
            record db {
              wallets =
                  orm.update
                    (λ w. w.id == r.id)
                    (λ w. record w { balance = r.balance +ℤ t.amount })
                    (orm.update
                      (λ w. w.id == s.id)
                      (λ w. record w { balance = s.balance -ℤ t.amount })
                      db.wallets);
              transfers =
                  orm.update
                    (λ u. u.id == t.id)
                    (λ u. record u { status = TransferStatus.completed })
                    db.transfers;
              ledger = (db.ledger ++ debit s ∷ []) ++ credit r ∷ [];
              outbox = db.outbox ++ event ∷ [];
            },
          )
      unfolding move_money
      move_money_ok s r from covered to debited credited posted = ground arith

      move_outcome :
          ((w : Wallet) → pick from_id first second ≡ some w → Memᴰ w db.wallets × (w.id ≡ from_id))
          → ((w : Wallet) → pick to_id first second ≡ some w → Memᴰ w db.wallets × (w.id ≡ to_id))
          → MoveOutcome event db (
              atomically
                (move_money orm debit_id credit_id t from_id to_id event first second db)
                db)
      unfolding move_money
      move_outcome is_from is_to = elim (Option-cases (pick from_id first second)) [
        | inl missing ↦ ground arith
        | inr (s, from) ↦ elim (Bool-cases (ltb_ℤ (s.balance -ℤ t.amount) (pos 0))) [
          | inl short ↦ ground arith
          | inr covered ↦ elim (Option-cases (pick to_id first second)) [
            | inl missing ↦ ground arith
            | inr (r, to) ↦ elim (insert_cases orm ledger_clash (debit s) db.ledger) [
              | inl taken ↦ ground arith
              | inr (new_debit, debited) ↦
                  elim (insert_cases orm ledger_clash (credit r) (db.ledger ++ debit s ∷ [])) [
                    | inl taken ↦ ground arith
                    | inr (new_credit, credited) ↦
                        elim (insert_cases orm outbox_clash event db.outbox) [
                          | inl taken ↦ ground arith
                          | inr (new_event, posted) ↦
                              rw (move_money_ok s r from covered to debited credited posted)
                                (record {
                                  sender = s;
                                  receiver = r;
                                  sender_found = (is_from s from).0;
                                  receiver_found = (is_to r to).0;
                                  sender_named = (is_from s from).1;
                                  receiver_named = (is_to r to).1;
                                  enough = ltb_ℤ-false (s.balance -ℤ t.amount) (pos 0) covered;
                                  new_debit = new_debit;
                                  new_credit = new_credit;
                                  result = simp orm.update_lem;
                                })
                        ]
                  ]
            ]
          ]
        ]
      ]

    abbrev locked : ℕ → Option Wallet
    locked id = orm.find_one (λ w. w.id == id) db.wallets

    locked-mem : (id : ℕ) (w : Wallet) → locked id ≡ some w → Memᴰ w db.wallets × (w.id ≡ id)
    locked-mem id w read =
        let (found, named) = orm.find_one-some _ _ read in (found, (==_iff w.id id).0 named)

    -- What `pick` gives is the row of the id that it is asked for, if that is one of the two.
    pick-locked :
        (id first_id second_id : ℕ) (first : Wallet)
        → locked first_id ≡ some first
        → (id ≡ first_id) ⊎ (id ≡ second_id)
        → (w : Wallet) → pick id first (locked second_id) ≡ some w
        → Memᴰ w db.wallets × (w.id ≡ id)
    pick-locked id first_id second_id first read one_of w picked =
        elim (Bool-cases (first.id == id)) [
          | inl same ↦
              let e : some first ≡ some w = ground (arith, same, picked) in
              let q : w ≡ first = cc in
              (Memᴰ.cast q (locked-mem first_id first read).0, ground (arith, same, q))
          | inr other ↦
              let e : locked second_id ≡ some w = ground (arith, other, picked) in
              let (found, named) = locked-mem second_id w e in
              (found, ground (arith, other, (locked-mem first_id first read).1))
        ]

    execute_locked :
        (first_id second_id : ℕ)
        → lock_order from_id to_id ≡ (first_id, second_id)
        → (from_id ≡ first_id) ⊎ (from_id ≡ second_id)
        → (to_id ≡ first_id) ⊎ (to_id ≡ second_id)
        → MoveOutcome event db
            (atomically (execute_body orm debit_id credit_id t from_id to_id event db) db)
    unfolding execute_body
    execute_locked first_id second_id order is_from is_to = elim (Option-cases (locked first_id)) [
      | inl missing ↦ rw order (rw missing refl)
      | inr (first, read) ↦ rw order (
          rw read (
            move_outcome first (locked second_id)
              (pick-locked from_id first_id second_id first read is_from)
              (pick-locked to_id first_id second_id first read is_to)))
    ]

    pub execute_outcome :
        MoveOutcome event db (execute_transfer orm debit_id credit_id t from_id to_id event db)
    unfolding execute_transfer lock_order
    execute_outcome = rw orm.transaction_lem (elim (Bool-cases (ltb from_id to_id)) [
      | inl below ↦ execute_locked from_id to_id (rw below refl) (inl refl) (inr refl)
      | inr above ↦ execute_locked to_id from_id (rw above refl) (inr refl) (inl refl)
    ])
