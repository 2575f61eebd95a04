-- ===== src/Scripts.antt =====
-- The scripts of the repository (scripts/).
pub mod SeedAdmin
pub mod Admins
pub mod Seeding
