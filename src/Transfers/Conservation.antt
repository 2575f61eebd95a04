-- ===== src/Transfers/Conservation.antt =====
-- `executeTransfer` moves money and neither makes nor loses any.
use mathlib.Core.List.Memᴰ
use lior_paris_wallet.Prelude.{sym, ℕ, ◌≡◌, ◌≢◌, ◌∙◌, refl, ◌==◌, [], ◌∷◌, ◌++◌, List, Memᴰ, arith}
use lior_paris_wallet.Prelude.Int.{ℤ, pos, ◌+ℤ◌, ◌-ℤ◌, ◌≤ℤ◌, int_laws}
use lior_paris_wallet.Prelude.Rows.{sum_of-snoc, mem-set_where}
use lior_paris_wallet.Entities.{Db, Wallet, Transfer, OutboxEvent}
use lior_paris_wallet.Ledger.{IsSolventDb, deposit_amount, IsAudited, total_balance}
use lior_paris_wallet.Ledger.Posting.{post_to-IsAudited, total_to-set_balance, set_balance}
use lior_paris_wallet.Transfers.Movement.{debit, credit, Moved}

-- The source subtracts the amount, the ledger adds its negative.
sub-eq-add : (a b : ℤ) → a -ℤ b ≡ a +ℤ (pos 0 -ℤ b)
sub-eq-add a b = omega int_laws

module _ (debit_id credit_id : ℕ) (t : Transfer) {from_id to_id : ℕ} {event : OutboxEvent}
    {db db' : Db} (apart : from_id ≢ to_id)
    (m : Moved debit_id credit_id t from_id to_id event db db')
    (books : IsAudited db.wallets db.ledger) where
  open m use {sender, receiver}

  abbrev after_debit : List Wallet
  after_debit = set_balance sender.id (sender.balance -ℤ t.amount) db.wallets

  -- The receiver's row is not the one that the debit changes.
  receiver-mem : Memᴰ receiver after_debit
  receiver-mem = Memᴰ.cast (ground (arith, m.sender_named, m.receiver_named)) (
      mem-set_where (λ w. w.id == sender.id)
        (λ w. record w { balance = sender.balance -ℤ t.amount }) db.wallets m.receiver_found)

  debit-IsAudited :
      IsAudited after_debit (db.ledger ++ debit debit_id credit_id t from_id to_id sender ∷ [])
  debit-IsAudited =
      post_to-IsAudited db.wallets m.sender_found db.ledger
        (debit debit_id credit_id t from_id to_id sender) (sender.balance -ℤ t.amount)
        (pos 0 -ℤ t.amount) (sub-eq-add sender.balance t.amount) books refl refl m.enough
        m.new_debit

  -- A transfer of an amount that is not negative keeps the books audited.
  pub Moved-IsAudited : pos 0 ≤ℤ t.amount → IsAudited db'.wallets db'.ledger
  Moved-IsAudited positive =
      let before = books.covered receiver m.receiver_found in
      rw m.result (
        post_to-IsAudited after_debit receiver-mem
          (db.ledger ++ debit debit_id credit_id t from_id to_id sender ∷ [])
          (credit debit_id credit_id t from_id to_id receiver) (receiver.balance +ℤ t.amount)
          t.amount refl debit-IsAudited refl refl (omega int_laws) m.new_credit)

  -- It leaves the money in all wallets as it was.
  pub total-Moved : total_balance db'.wallets ≡ total_balance db.wallets
  total-Moved =
      let taken =
        total_to-set_balance db.wallets m.sender_found (sender.balance -ℤ t.amount)
          (pos 0 -ℤ t.amount) (sub-eq-add sender.balance t.amount) books.wallet_ids in
      rw m.result (
        total_to-set_balance after_debit receiver-mem (receiver.balance +ℤ t.amount) t.amount refl
          debit-IsAudited.wallet_ids
        ∙ rw taken (omega int_laws))

  pub Moved-IsSolvent : IsSolventDb db → IsSolventDb db'
  Moved-IsSolvent solvent =
      let out = debit debit_id credit_id t from_id to_id sender in
      let back = credit debit_id credit_id t from_id to_id receiver in
      total-Moved
      ∙ solvent
      ∙ sym (
          rw m.result (
            sum_of-snoc deposit_amount (db.ledger ++ out ∷ []) back
            ∙ rw (sum_of-snoc deposit_amount db.ledger out) (omega int_laws)))
