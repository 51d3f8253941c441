-- ===== src/Assessment.antt =====
-- backend/assessments.py and backend/assessment_evidence.py: what a finished run of a stored case
-- establishes.
pub mod Case
pub mod Preflight
pub mod Rows
pub mod Semantics
pub mod Report
pub mod Judge
pub mod Credentials
pub mod Assess
pub mod Conclusive
pub mod Judged
pub mod Support
mod Tests
