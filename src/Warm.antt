-- ===== src/Warm.antt =====
-- internal/warm: the pool of warm executors, its one-shot retry and its reaper.
pub mod Conn
pub mod Retry
pub mod Pool
pub mod Live
pub mod NoLeak
