-- ===== src/Ready.antt =====
-- src/scheduler/ready.rs: the pending queue with its two routes, and the ready queue.
pub mod Maps
pub mod Queue
pub mod ReadyQueue
