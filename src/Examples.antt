-- ===== src/Examples.antt =====
-- Tests, and the theorems at concrete inputs.
mod Surroundings
mod Pipeline
mod Quality
mod Runs
mod Runner
mod Provision
mod Security
mod Access
mod Locks
mod Registry
mod Patches
