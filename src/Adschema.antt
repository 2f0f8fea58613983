-- ===== src/Adschema.antt =====
-- internal/adschema: the exporter of the directory schema.
pub mod Resolve
pub mod Termination
pub mod Catalog
pub mod Effective
pub mod Recorded
pub mod Demanded
