-- ===== src/Tests.antt =====
-- Runs of the modelled program at concrete inputs, over a client that only counts its calls.
pub mod Fixtures
pub mod Frames
pub mod Retries
pub mod Sessions
pub mod Managers
pub mod Sockets
pub mod Logs
pub mod Stanzas
pub mod Tabs
pub mod Apps
pub mod Lives
