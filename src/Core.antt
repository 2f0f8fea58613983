-- ===== src/Core.antt =====
-- The engine of the client: errors.go, envelope.go, core.go and config.go.
pub mod Errors
pub mod Classification
pub mod Decode
pub mod Envelope
pub mod Framing
pub mod Noise
pub mod Mask
pub mod Secrets
pub mod Exec
pub mod Retry
pub mod Recovery
pub mod Calls
pub mod Backoff
pub mod Logging
