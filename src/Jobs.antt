-- ===== src/Jobs.antt =====
-- backend/routers/jobs.py: the job queue.
pub mod Targets
pub mod Config
pub mod Create
pub mod Pending
pub mod Pipeline
pub mod Update
pub mod Claim
pub mod Control
mod Tests
