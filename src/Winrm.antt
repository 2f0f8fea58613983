-- ===== src/Winrm.antt =====
-- transport/winrm: the settings of the transport and the choice of an endpoint.
pub mod Failover
pub mod Cache
pub mod Rotation
pub mod Probing
pub mod Settings
pub mod Defaults
pub mod Wrap
pub mod Literal
pub mod Cold
pub mod PreExecution
