-- ===== src/Fairshare.antt =====
-- gpu_scheduler_lab/fairshare: what jobs are charged, dominant shares and the usage history.
pub mod Accounting
pub mod Shares
pub mod History
