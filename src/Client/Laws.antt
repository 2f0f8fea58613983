-- ===== src/Client/Laws.antt =====
-- What the operations on objects guarantee.
pub mod Removal
pub mod Idle
pub mod Pinned
