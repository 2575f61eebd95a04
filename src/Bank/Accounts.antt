-- ===== src/Bank/Accounts.antt =====
-- How the accounts follow the rows of the wallets.
use mathlib.Core.List.Memᴰ
use lior_paris_wallet.Prelude.{
  ℕ, ◌≡◌, ◌≢◌, ◌==◌, Bool-cases, refl, false, none, some, List, [], ◌∷◌, ◌++◌, Memᴰ, arith, inl,
  inr,
}
use lior_paris_wallet.Prelude.Int.{ℤ}
use lior_paris_wallet.Prelude.Rows.{HasUniqueKeys, any}
use lior_paris_wallet.Entities.{Wallet, wallet_clash}
use lior_paris_wallet.Ledger.{wallet_id_of}
use lior_paris_wallet.Ledger.Posting.{set_balance}
use lior_paris_wallet.Bank.{account, with_account}

-- A row's account holds its balance.
pub account-mem :
    {w : Wallet} (ws : List Wallet)
    → HasUniqueKeys wallet_id_of ws
    → Memᴰ w ws
    → account ws w.id ≡ some w.balance
account-mem [] unique m = absurd (Memᴰ.not-nil m)
account-mem {w} (x ∷ ws) unique m = elim (Memᴰ.cases_cons m) [
  | inl e ↦ rw e (ground arith)
  | inr t ↦
      let other = unique.0 w t in
      let rest = account-mem ws unique.1 t in ground (arith, other, rest)
]

account-set_other :
    (k : ℕ) (b : ℤ) (ws : List Wallet) (id : ℕ)
    → id ≢ k
    → account (set_balance k b ws) id ≡ account ws id
account-set_other k b [] id other = refl
account-set_other k b (w ∷ ws) id other =
    let rest = account-set_other k b ws id other in
    elim (Bool-cases (w.id == k)) [
      | inl hit ↦ rw hit (ground (arith, hit, other, rest))
      | inr miss ↦ rw miss (ground (arith, rest))
    ]

account-set_own :
    (k : ℕ) (b c : ℤ) (ws : List Wallet)
    → account ws k ≡ some c
    → account (set_balance k b ws) k ≡ some b
account-set_own k b c [] there = absurd (ground (arith, there))
account-set_own k b c (w ∷ ws) there = elim (Bool-cases (w.id == k)) [
  | inl hit ↦ rw hit (ground (arith, hit))
  | inr miss ↦
      let rest = account-set_own k b c ws (ground (arith, miss, there)) in
      rw miss (ground (arith, miss, rest))
]

-- A new balance of an account that is open is its balance, and no other account's.
pub account-set_balance :
    (k : ℕ) (b c : ℤ) (ws : List Wallet)
    → account ws k ≡ some c
    → (id : ℕ) → account (set_balance k b ws) id ≡ with_account k b (account ws) id
account-set_balance k b c ws there id = elim (Bool-cases (id == k)) [
  | inl own ↦
      let same : id ≡ k = ground (arith, own) in rw own (rw same (account-set_own k b c ws there))
  | inr other ↦ rw other (account-set_other k b ws id (ground (arith, other)))
]

pub account-snoc :
    (w : Wallet) (ws : List Wallet)
    → any (wallet_clash w) ws ≡ false
    → (id : ℕ) → account (ws ++ w ∷ []) id ≡ with_account w.id w.balance (account ws) id
unfolding wallet_clash
account-snoc w [] free id = refl
account-snoc w (x ∷ ws) free id =
    let rest = account-snoc w ws (ground (arith, free)) id in ground (arith, free, rest)

pub account_free :
    (w : Wallet) (ws : List Wallet) → any (wallet_clash w) ws ≡ false → account ws w.id ≡ none
unfolding wallet_clash
account_free w [] free = refl
account_free w (x ∷ ws) free =
    let rest = account_free w ws (ground (arith, free)) in ground (arith, free, rest)
