-- ===== src/Seed.antt =====
-- db/seed/seed.py and db/seed/profiles.py: the rows with which a benchmark begins.
pub mod Decimal
pub mod Series
pub mod Profile
pub mod Rows
pub mod Database
