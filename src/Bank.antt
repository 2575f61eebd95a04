-- ===== src/Bank.antt =====
-- What the wallets promise, with the tables forgotten: a bank, which gives the balance of each account
-- that is open, and what it does with an order. `Bank/Refinement` relates the program's
-- writes (src/features/wallet/wallet.repository.ts, src/features/transfers/transfers.repository.ts) to
-- orders.
pub mod Accounts
pub mod Refinement
use lior_paris_wallet.Prelude.{
  ℕ, ◌≡◌, ◌≢◌, ◌==◌, Option, none, some, List, [], ◌∷◌, ◌++◌, Bool, true, false, if◌then◌else◌,
}
use lior_paris_wallet.Prelude.Int.{ℤ, pos, ◌+ℤ◌, ◌-ℤ◌, ◌≤ℤ◌}
use lior_paris_wallet.Entities.{Db, Wallet}

-- The balance of an account, if it is open.
abbrev pub Bank : Type 0
Bank = ℕ → Option ℤ

-- The bank as the rows of the wallets show it.
abbrev pub account : List Wallet → Bank
account [] id = none
account (w ∷ ws) id = if id == w.id then some w.balance else account ws id

abbrev pub bank_of : Db → Bank
bank_of db = account db.wallets

abbrev pub with_account : ℕ → ℤ → Bank → Bank
with_account k b bank id = if id == k then some b else bank id

-- The banks agree on every account.
abbrev pub AreSame : Bank → Bank → Type 0
AreSame bank bank' = (id : ℕ) → bank' id ≡ bank id

-- What a write is asked to do to the accounts.
pub data Order : Type 0 where
  deposit : (account_id : ℕ) (amount : ℤ) → Order
  transfer : (from_id to_id : ℕ) (amount : ℤ) → Order
  open_account : (account_id : ℕ) → Order
  nothing : Order

-- What the bank does with an order that it accepts. A deposit of the amount goes to the account, which is open
-- and not overdrawn by it. A transfer takes the amount, which is positive, from one open account, which can
-- pay it, and brings it to another. An account that is opened was not open, and has nothing in it.
abbrev pub IsDone : Order → (bank bank' : Bank) → Type 0
IsDone (deposit k amount) bank bank' =
    (b : ℤ) × (bank k ≡ some b)
    × (pos 0 ≤ℤ b +ℤ amount)
    × AreSame (with_account k (b +ℤ amount) bank) bank'
IsDone (transfer k l amount) bank bank' =
    (b c : ℤ) × (k ≢ l)
    × (bank k ≡ some b)
    × (bank l ≡ some c)
    × (pos 1 ≤ℤ amount)
    × (pos 0 ≤ℤ b -ℤ amount)
    × AreSame (with_account l (c +ℤ amount) (with_account k (b -ℤ amount) bank)) bank'
IsDone (open_account k) bank bank' = (bank k ≡ none) × AreSame (with_account k (pos 0) bank) bank'
IsDone nothing bank bank' = AreSame bank bank'

-- An order, and whether it has been accepted.
pub record Entry : Type 0 where
  pub order : Order
  pub accepted : Bool

-- One that is refused does nothing.
abbrev pub Effect : Order → (accepted : Bool) → (bank bank' : Bank) → Type 0
Effect order true bank bank' = IsDone order bank bank'
Effect order false bank bank' = AreSame bank bank'

-- The bank does each order once, in their sequence, and nothing else.
pub data Book (bank : Bank) : List Entry → Bank → Type 0 where
  start : Book bank [] bank
  then_entry :
      {entries : List Entry} {bank' bank'' : Bank} (e : Entry)
      → Book bank entries bank'
      → Effect e.order e.accepted bank' bank''
      → Book bank (entries ++ e ∷ []) bank''
