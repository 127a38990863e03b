-- ===== src/Schedulers.antt =====
-- gpu_scheduler_lab/schedulers: where a job's GPUs are placed.
pub mod Topology
pub mod Packing
pub mod Backfill
