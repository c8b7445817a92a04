-- ===== src/Progress.antt =====
-- src/progress.rs: passive observation by the host.
pub mod Wake
