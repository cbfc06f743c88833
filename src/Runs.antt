-- ===== src/Runs.antt =====
-- backend/observability: the durable record of runs, their cancellation and the watchdog over them; and
-- the runner of backend/graph that starts, resumes and cancels them.
pub mod Record
pub mod Store
pub mod Watchdog
pub mod Collector
pub mod Runner
pub mod Provision
