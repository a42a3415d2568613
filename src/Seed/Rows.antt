-- ===== src/Seed/Rows.antt =====
-- The INSERTs of `seed_sql` (db/seed/seed.py), one function for each table.
mod Given
mod Fleet
mod Offer
mod Work
unfoldable pub use Given.*
unfoldable pub use Fleet.*
unfoldable pub use Offer.*
unfoldable pub use Work.*
