-- ===== src/Payments.antt =====
-- python/app/payments.py: a device pays for a program of its wash bay.
pub mod Request
pub mod Uid
pub mod Payload
pub mod Admission
pub mod Charge
pub mod Create
