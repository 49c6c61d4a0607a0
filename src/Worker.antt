-- ===== src/Worker.antt =====
-- src/host/pearl/gpu_worker.cpp and what stands around it: the batches of a GPU, the installation of
-- a new job beside the mining, and the watchdog.
pub mod Watchdog
pub mod Batch
pub mod Late
pub mod Install
pub mod Invariant
pub mod Installer
pub mod Safety
pub mod Progress
pub mod Schedule
mod Runs
