-- ===== src/Config.antt =====
-- internal/config: the configuration that the other parts run on.
pub mod Types
pub mod Environment
pub mod Endpoint
pub mod Registry
pub mod Normalize
mod Tests
pub mod Loader
pub mod Listing
pub mod Samples
