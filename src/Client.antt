-- ===== src/Client.antt =====
-- The sub-clients of the library, which build their operations from exec.
pub mod Deleted
pub mod Schema
pub mod Tables
pub mod Resolution
pub mod Replication
pub mod Waiting
pub mod Acl
pub mod AclRoundTrip
pub mod Objects
pub mod Ou
pub mod Group
pub mod User
pub mod Computer
pub mod ServiceAccount
pub mod New
pub mod Laws
