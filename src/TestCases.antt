-- ===== src/TestCases.antt =====
-- backend/routers/test_cases.py: the authorization test cases that an engagement stores.
pub mod Read
pub mod Credentials
pub mod Preflight
pub mod Size
pub mod Spec
pub mod Routes
pub mod Reviewed
pub mod Safe
pub mod Accepted
pub mod Table
mod Tests
