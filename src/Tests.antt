-- ===== src/Tests.antt =====
-- The theorems at concrete inputs.
mod Demo
mod Engine
mod Scripts
mod Pools
mod Endpoints
mod Directory
mod Replicas
mod Framing
mod Objects
mod Wrapping
mod Searching
