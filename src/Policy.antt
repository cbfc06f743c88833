-- ===== src/Policy.antt =====
-- backend/policy: path checks and the organization policy's verdict on a change.
pub mod Paths
pub mod Patterns
pub mod Schema
pub mod Change
pub mod Evaluator
