-- ===== src/Aws.antt =====
-- The package aws: load balancers in the place of containers.
pub mod Cache
pub mod Flags
pub mod Instance
pub mod Metadata
pub mod Api
pub mod Health
pub mod Services
pub mod Groups
pub mod Lookup
pub mod Registration
