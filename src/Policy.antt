-- ===== src/Policy.antt =====
-- backend/policy.py: may a capability run against a target, for an engagement, right now?
pub mod Target
pub mod Match
pub mod Decision
pub mod Gates
pub mod Rules
pub mod Hosts
pub mod Paths
pub mod Normal
mod Tests
