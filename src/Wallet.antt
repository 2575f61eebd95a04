-- ===== src/Wallet.antt =====
-- Wallets, deposits and balances (src/features/wallet).
pub mod Tag
pub mod Tags
pub mod Repository
pub mod Settlement
pub mod Service
pub mod Booking
pub mod Crediting
pub mod Deposits
pub mod Creation
pub mod Balances
pub mod Coherence
pub mod Reads
pub mod Overlaps
pub mod Turns
pub mod Endings
pub mod Requests
pub mod Payment
pub mod Paid
pub mod Unanswered
pub mod Webhook
pub mod Webhooks
pub mod Controller
