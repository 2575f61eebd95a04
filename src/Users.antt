-- ===== src/Users.antt =====
-- Users and their management (src/features/users).
pub mod Repository
pub mod Policy
pub mod Service
pub mod Permissions
pub mod Controller
pub mod Pages
pub mod Lookups
