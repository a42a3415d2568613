-- ===== src/Dashboard.antt =====
-- python/app/dashboard.py: a company's figures over a period.
pub mod Period
pub mod Overview
