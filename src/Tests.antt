-- ===== src/Tests.antt =====
-- The theorems at concrete inputs: a car wash with one device, one program and one RF card.
pub mod Data
pub mod Payments
pub mod Service
pub mod Seed
pub mod Server
pub mod Paying
pub mod Contracts
