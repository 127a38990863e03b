-- ===== src/Models.antt =====
-- gpu_scheduler_lab/models: accelerators, topology, jobs, events and the cluster.
pub mod Accelerator
pub mod Topology
pub mod Elastic
pub mod Job
pub mod Events
pub mod Cluster
