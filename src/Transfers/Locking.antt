-- ===== src/Transfers/Locking.antt =====
-- The order in which `executeTransfer` of src/features/transfers/transfers.repository.ts locks the two
-- wallets.
use lior_paris_wallet.Prelude.{ℕ, ◌≡◌, ◌≢◌, ◌⊎◌, ◌<◌, arith}
use lior_paris_wallet.Transfers.Repository.{lock_order}

-- Transfers between two different wallets lock them in one order, whichever way the money goes: the
-- lesser id first. So two of them cannot each hold a wallet that the other waits for.
pub lock_order-sorted :
    (a b : ℕ)
    → a ≢ b
    → (lock_order a b ≡ lock_order b a)
      × ((lock_order a b).0 < (lock_order a b).1)
      × ((lock_order a b ≡ (a, b)) ⊎ (lock_order a b ≡ (b, a)))
unfolding lock_order
lock_order-sorted a b apart = (ground arith, ground arith, ground arith)
