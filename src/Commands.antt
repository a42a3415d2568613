-- ===== src/Commands.antt =====
-- python/app/commands.py: a device fetches its commands, acknowledges them and reports results.
pub mod Moves
pub mod Pending
pub mod Acknowledge
pub mod Report
pub mod Sound
pub mod Agreed
pub mod Life
pub mod Served
