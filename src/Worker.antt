-- ===== src/Worker.antt =====
-- python/app/worker.py: the periodic sweep over maintenance windows, devices and alarms.
pub mod Sweep
