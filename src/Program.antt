-- ===== src/Program.antt =====
-- The main program.
pub mod Adapters
pub mod Address
pub mod Lookup
pub mod Connect
pub mod Settings
pub mod Events
pub mod Start
pub mod Loop
pub mod Concurrent
pub mod Levels
