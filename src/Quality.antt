-- ===== src/Quality.antt =====
-- backend/qa: what the checks report and how the judge turns it into one verdict.
pub mod Schema
pub mod Objective
pub mod Judge
pub mod Outcome
pub mod Checks
