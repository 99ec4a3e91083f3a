-- ===== src/Examples.antt =====
-- The theorems at concrete inputs, and tests of the definitions.
mod Fixtures
mod Tags
mod Metadata
mod Services
mod Containers
mod Syncing
mod Interleaving
mod Startup
mod Balancers
mod Registrations
mod Adapters
mod Clusters
mod Endpoints
mod Launch
