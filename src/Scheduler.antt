-- ===== src/Scheduler.antt =====
-- src/scheduler.rs: the shared parts of the owned scheduler.
pub mod Accounting
pub mod OwnedLimits
pub mod Class
pub mod External
pub mod Activations
