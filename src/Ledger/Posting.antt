-- ===== src/Ledger/Posting.antt =====
-- One posting: a wallet's balance and a ledger entry for the change, as `settleTransaction` and
-- `executeTransfer` write them.
use mathlib.Core.List.Memᴰ
use lior_paris_wallet.Prelude.{
  ℕ, ◌≡◌, ◌≢◌, ◌⊎◌, ◌∙◌, ap, refl, sym, ◌==◌, false, List, [], ◌∷◌, ◌++◌, Memᴰ, arith, inl, inr,
  Bool-cases, ==_iff, eq_iff, subst,
}
use lior_paris_wallet.Prelude.Int.{ℤ, pos, ◌+ℤ◌, ◌≤ℤ◌, int_laws}
use lior_paris_wallet.Prelude.Rows.{
  any, any-false, set_where, set_where-mem, HasUniqueKeys, sum_of-snoc,
}
use lior_paris_wallet.Prelude.Keys.{
  eq_of_key, HasUniqueKeys-snoc, HasUniqueKeys-set_where, sum_of-set_where,
}
use lior_paris_wallet.Entities.{Wallet, LedgerEntry, ledger_clash}
use lior_paris_wallet.Ledger.{
  IsAudited, ledger_balance, effect_on, signed_amount, total_balance, wallet_id_of, wallet_balance,
  entry_key,
}

effect_other : (e : LedgerEntry) (id : ℕ) → e.wallet_id ≢ id → effect_on id e ≡ pos 0
effect_other e id h = ground arith

abbrev pub set_balance : ℕ → ℤ → List Wallet → List Wallet
set_balance id balance = set_where (λ w. w.id == id) (λ w. record w { balance = balance })

-- A row that the ledger's index lets in has a key of its own.
pub new_key-ne :
    (e : LedgerEntry) (ledger : List LedgerEntry)
    → any (ledger_clash e) ledger ≡ false
    → (b : LedgerEntry) → Memᴰ b ledger
    → entry_key b ≢ entry_key e
unfolding ledger_clash
new_key-ne e ledger free b m same =
    let apart = any-false (ledger_clash e) ledger free m in
    ground (arith, apart, eq_iff e.idempotency_key b.idempotency_key, same)

module _ {w : Wallet} (wallets : List Wallet) (found : Memᴰ w wallets) where
  -- The money in all wallets moves by the change of the one.
  pub total-set_balance :
      (change : ℤ)
      → HasUniqueKeys wallet_id_of wallets
      → total_balance (set_balance w.id (w.balance +ℤ change) wallets)
        ≡ total_balance wallets +ℤ change
  total-set_balance change ids = grind (
    int_laws,
    sum_of-set_where wallet_id_of wallet_balance
        (λ (v : Wallet). record v { balance = w.balance +ℤ change }) wallets ids found,
  )

  -- A wallet after the posting is the one posted to with its new balance, or an old one.
  set_balance_cases :
      (balance : ℤ) {v : Wallet}
      → HasUniqueKeys wallet_id_of wallets
      → Memᴰ v (set_balance w.id balance wallets)
      → (v ≡ record w { balance = balance }) ⊎ (Memᴰ v wallets × (v.id ≢ w.id))
  set_balance_cases balance {v} ids m =
      let (a, before, e) =
        set_where-mem (λ u. u.id == w.id) (λ u. record u { balance = balance }) wallets m in
      elim (Bool-cases (a.id == w.id)) [
        | inl same ↦
            let one : a ≡ w =
              eq_of_key wallet_id_of wallets ids before found ((==_iff a.id w.id).0 same) in
            inl (e ∙ rw same (ap (λ (u : Wallet). record u { balance = balance }) one))
        | inr other ↦
            let q : v ≡ a = e ∙ rw other refl in
            inr (Memᴰ.cast q before, rw q (ground (arith, other)))
      ]

  ledger_balance-snoc :
      (id : ℕ) (ledger : List LedgerEntry) (e : LedgerEntry)
      → ledger_balance id (ledger ++ e ∷ []) ≡ ledger_balance id ledger +ℤ effect_on id e
  ledger_balance-snoc id ledger e = sum_of-snoc (effect_on id) ledger e

  effect_self :
      {change : ℤ} (e : LedgerEntry)
      → e.wallet_id ≡ w.id
      → signed_amount e.type e.amount ≡ change
      → effect_on w.id e ≡ change
  effect_self e named signed = ground arith

  -- A posting of `e` to its wallet keeps the books audited.
  pub post-IsAudited :
      (ledger : List LedgerEntry) (e : LedgerEntry) (change : ℤ)
      → IsAudited wallets ledger
      → e.wallet_id ≡ w.id
      → signed_amount e.type e.amount ≡ change
      → pos 0 ≤ℤ w.balance +ℤ change
      → any (ledger_clash e) ledger ≡ false
      → IsAudited (set_balance w.id (w.balance +ℤ change) wallets) (ledger ++ e ∷ [])
  post-IsAudited ledger e change books named signed enough free = record {
    wallet_ids =
        HasUniqueKeys-set_where wallet_id_of (λ u. u.id == w.id)
          (λ u. record u { balance = w.balance +ℤ change }) wallets (λ u. refl) books.wallet_ids;
    balanced = λ v m. elim (set_balance_cases (w.balance +ℤ change) books.wallet_ids m) [
      | inl posted ↦ rw posted (
          rw (ledger_balance-snoc w.id ledger e) (
            ap (λ (b : ℤ). b +ℤ change) (books.balanced w found)
            ∙ ap (λ (c : ℤ). ledger_balance w.id ledger +ℤ c) (sym (effect_self e named signed))))
      | inr (old, other) ↦ rw (ledger_balance-snoc v.id ledger e) (
          books.balanced v old
          ∙ rw (effect_other e v.id (λ q. other (sym q ∙ named))) (omega int_laws))
    ];
    covered = λ v m. elim (set_balance_cases (w.balance +ℤ change) books.wallet_ids m) [
      | inl posted ↦ rw posted enough
      | inr (old, other) ↦ books.covered v old
    ];
    keys = HasUniqueKeys-snoc entry_key ledger e books.keys (new_key-ne e ledger free);
  }

  -- The same for a balance that is written otherwise.
  pub post_to-IsAudited :
      (ledger : List LedgerEntry) (e : LedgerEntry) (balance change : ℤ)
      → balance ≡ w.balance +ℤ change
      → IsAudited wallets ledger
      → e.wallet_id ≡ w.id
      → signed_amount e.type e.amount ≡ change
      → pos 0 ≤ℤ balance
      → any (ledger_clash e) ledger ≡ false
      → IsAudited (set_balance w.id balance wallets) (ledger ++ e ∷ [])
  post_to-IsAudited ledger e balance change q books named signed enough free =
      subst (λ b. IsAudited (set_balance w.id b wallets) (ledger ++ e ∷ [])) (sym q)
        (post-IsAudited ledger e change books named signed (subst (λ b. pos 0 ≤ℤ b) q enough) free)

  pub total_to-set_balance :
      (balance change : ℤ)
      → balance ≡ w.balance +ℤ change
      → HasUniqueKeys wallet_id_of wallets
      → total_balance (set_balance w.id balance wallets) ≡ total_balance wallets +ℤ change
  total_to-set_balance balance change q ids = rw q (total-set_balance change ids)
