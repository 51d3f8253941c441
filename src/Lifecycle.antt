-- ===== src/Lifecycle.antt =====
-- The whole of a job's life: what the calls of routers/jobs.py and routers/engagements.py keep.
pub mod Row
pub mod Lease
pub mod Table
pub mod Capacity
pub mod Inversion
pub mod Effect
pub mod Bounds
pub mod Granting
pub mod Calls
pub mod Handlers
pub mod Queue
pub mod Policies
pub mod Run
pub mod Claims
pub mod Controller
pub mod Control
pub mod Ready
pub mod Handoff
pub mod Stages
mod Tests
mod QueueTests
