-- ===== src/Examples.antt =====
-- Concrete runs of the theorems on src/scheduler/reservation.rs and src/scheduler/ready.rs.
pub mod Capacity
pub mod Queues
pub mod Sets
pub mod Ranges
pub mod Wakes
pub mod Counters
pub mod Interest
pub mod Classes
pub mod Externals
pub mod Drains
