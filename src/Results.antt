-- ===== src/Results.antt =====
-- backend/routers/jobs.py: the results that a run of the Gate reports, and the receipt of each.
pub mod Payload
pub mod Rows
pub mod Upload
pub mod Once
pub mod Filed
pub mod Answers
mod Tests
