-- ===== src/Ledger/Opening.antt =====
-- A new wallet in the books: it is empty, and the ledger does not name it.
use lior_paris_wallet.Prelude.{
  ℕ, ◌≡◌, ◌≢◌, inl, inr, refl, sym, ◌∙◌, false, Memᴰ, List, ◌++◌, ◌∷◌, [], arith,
}
use lior_paris_wallet.Prelude.Int.{pos, int_laws}
use lior_paris_wallet.Prelude.Rows.{any, any-false, mem-snoc, sum_of-snoc}
use lior_paris_wallet.Prelude.Keys.{HasUniqueKeys-snoc}
use lior_paris_wallet.Entities.{Wallet, LedgerEntry, wallet_clash}
use lior_paris_wallet.Ledger.{
  IsAudited, wallet_id_of, wallet_balance, ledger_balance, effect_on, total_balance, deposited,
}

ledger_balance_unnamed :
    (id : ℕ) (ledger : List LedgerEntry)
    → ((e : LedgerEntry) → Memᴰ e ledger → e.wallet_id ≢ id)
    → ledger_balance id ledger ≡ pos 0
ledger_balance_unnamed id [] unnamed = refl
ledger_balance_unnamed id (e ∷ ledger) unnamed =
    rw
      (
        ledger_balance_unnamed id ledger (λ b m. unnamed b (Memᴰ.tail m)),
        effect_unnamed e id (unnamed e (Memᴰ.head refl)),
      )
      (omega int_laws)
  where
    effect_unnamed : (b : LedgerEntry) (i : ℕ) → b.wallet_id ≢ i → effect_on i b ≡ pos 0
    effect_unnamed b i h = ground arith

new_id-ne :
    (w : Wallet) (wallets : List Wallet)
    → any (wallet_clash w) wallets ≡ false
    → (v : Wallet) → Memᴰ v wallets
    → v.id ≢ w.id
unfolding wallet_clash
new_id-ne w wallets free v m same =
    let apart = any-false (wallet_clash w) wallets free m in ground (arith, apart, same)

module _ (w : Wallet) (wallets : List Wallet) (ledger : List LedgerEntry)
    (empty : w.balance ≡ pos 0) where
  pub open-IsAudited :
      ((e : LedgerEntry) → Memᴰ e ledger → e.wallet_id ≢ w.id)
      → any (wallet_clash w) wallets ≡ false
      → IsAudited wallets ledger
      → IsAudited (wallets ++ w ∷ []) ledger
  open-IsAudited unnamed free books = record {
    wallet_ids =
        HasUniqueKeys-snoc wallet_id_of wallets w books.wallet_ids (new_id-ne w wallets free);
    balanced = λ v m. elim (mem-snoc wallets m) [
      | inl old ↦ books.balanced v old
      | inr new ↦ rw new (empty ∙ sym (ledger_balance_unnamed w.id ledger unnamed))
    ];
    covered = λ v m. elim (mem-snoc wallets m) [
      | inl old ↦ books.covered v old
      | inr new ↦ rw (new, empty) (omega arith)
    ];
    keys = books.keys;
  }

  pub open-IsSolvent :
      total_balance wallets ≡ deposited ledger
      → total_balance (wallets ++ w ∷ []) ≡ deposited ledger
  open-IsSolvent solvent =
      sum_of-snoc wallet_balance wallets w ∙ rw (empty, solvent) (omega int_laws)
