-- ===== src/Queues.antt =====
-- gpu_scheduler_lab/queues: resource vectors, queue specifications and the queue hierarchy.
pub mod Resource
pub mod Spec
pub mod Hierarchy
