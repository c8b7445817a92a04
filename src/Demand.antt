-- ===== src/Demand.antt =====
-- src/scheduler/demand.rs: consumer interest and its propagation to the stages that serve it.
pub mod Selection
pub mod State
pub mod Graph
pub mod Service
pub mod Inv
pub mod Moves
pub mod Steps
pub mod Served
pub mod History
pub mod Aggregate
