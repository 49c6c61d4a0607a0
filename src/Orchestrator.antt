-- ===== src/Orchestrator.antt =====
-- src/host/pearl/worker_orchestrator.cpp and job_bus.cpp: the jobs, the watch over the progress of
-- the GPUs, and the shares on their way to the pool.
pub mod Jobs
pub mod Health
pub mod Sender
pub mod Delivery
pub mod Told
pub mod Arrival
mod Runs
