-- ===== src/Script.antt =====
-- internal/adscript: the closed set of operations, the scripts composed for them, and the
-- attribute half of a Set-AD* payload.
pub mod Ops
pub mod Compose
pub mod Attrs
pub mod Encode
pub mod Variants
