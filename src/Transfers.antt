-- ===== src/Transfers.antt =====
-- Peer-to-peer transfers (src/features/transfers).
pub mod Repository
pub mod Service
pub mod Movement
pub mod Between
pub mod Conservation
pub mod Locking
pub mod Safety
pub mod Accepted
pub mod Ownership
