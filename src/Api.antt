-- ===== src/Api.antt =====
-- python/app/main.py: the endpoints, and their answers as python/app/http.py forms them.
pub mod Endpoints
pub mod Server
pub mod Unmoved
pub mod Kept
pub mod Sound
pub mod Access
pub mod Checked
pub mod Life
pub mod Money
pub mod Retry
