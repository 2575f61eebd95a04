-- ===== src/Wallet/Booking.antt =====
-- A settled deposit in the books: what `settleTransaction` does to the balances and the ledger.
use mathlib.Core.List.Memᴰ
use lior_paris_wallet.Prelude.{ℕ, ◌≡◌, ◌++◌, ◌∷◌, [], refl, sym, subst, Memᴰ, ◌∙◌, ap}
use lior_paris_wallet.Prelude.Rows.{sum_of-snoc}
use lior_paris_wallet.Prelude.Int.{ℤ, ◌+ℤ◌}
use lior_paris_wallet.Entities.{Db, LedgerEntry, LedgerEntryType, Transaction, OutboxEvent}
use lior_paris_wallet.Ledger.{IsAuditedDb, IsAudited, IsSolventDb, total_balance, deposit_amount}
use lior_paris_wallet.Ledger.Posting.{post-IsAudited, total-set_balance, set_balance, new_key-ne}
use lior_paris_wallet.Wallet.Settlement.{Settled, settled_entry}

module _ (entry_id wallet_id : ℕ) (t : Transaction) {event : OutboxEvent} {db db' : Db}
    (c : Settled entry_id wallet_id t LedgerEntryType.deposit t.amount event db db') where
  abbrev pub deposit_entry : LedgerEntry
  deposit_entry = settled_entry entry_id wallet_id t LedgerEntryType.deposit t.amount c.wallet

  pub Settled-IsAudited : IsAuditedDb db → IsAuditedDb db'
  Settled-IsAudited books = rw c.result (
      subst
        (λ i.
          IsAudited (set_balance i (c.wallet.balance +ℤ t.amount) db.wallets)
            (db.ledger ++ deposit_entry ∷ []))
        c.named
        (post-IsAudited db.wallets c.found db.ledger deposit_entry t.amount books (sym c.named) refl
          c.covered c.new_key))

  pub total-Settled :
      IsAuditedDb db → total_balance db'.wallets ≡ total_balance db.wallets +ℤ t.amount
  total-Settled books = rw c.result (
      subst
        (λ i.
          total_balance (set_balance i (c.wallet.balance +ℤ t.amount) db.wallets)
          ≡ total_balance db.wallets +ℤ t.amount)
        c.named (total-set_balance db.wallets c.found t.amount books.wallet_ids))

  pub Settled-IsSolvent : IsAuditedDb db → IsSolventDb db → IsSolventDb db'
  Settled-IsSolvent books solvent =
      total-Settled books
      ∙ ap (λ (n : ℤ). n +ℤ t.amount) solvent
      ∙ sym (rw c.result (sum_of-snoc deposit_amount db.ledger deposit_entry))

  -- The key of a deposit that has been credited is in the ledger.
  pub booked-Settled :
      (e : LedgerEntry) × Memᴰ e db'.ledger × (e.idempotency_key ≡ t.idempotency_key)
  booked-Settled = (deposit_entry, rw c.result (Memᴰ.append_right db.ledger (Memᴰ.head refl)), refl)

  pub not-booked-Settled :
      (e : LedgerEntry) → Memᴰ e db.ledger → e.idempotency_key ≡ t.idempotency_key → ⊥
  not-booked-Settled e m same = new_key-ne deposit_entry db.ledger c.new_key e m same
