-- ===== src/Oop.antt =====
-- internal/oop: the framing of the out-of-process stream.
pub mod Framer
pub mod Search
pub mod Chunks
pub mod Stream
pub mod Reading
