-- ===== src/Tests.antt =====
-- The model run on concrete inputs, and each theorem applied to such a run.
pub mod Scenario
pub mod Rides
pub mod Parts
pub mod Messages
pub mod Gateway
pub mod Web
pub mod Tasks
pub mod Migrations
pub mod Process
