-- ===== src/Reservation.antt =====
-- src/scheduler/reservation.rs: declared-cost admission for staged pipelines.
pub mod Cost
pub mod Limits
pub mod Ledger
pub mod Bounds
pub mod Many
pub mod Bank
pub mod State
pub mod Sums
pub mod Pool
