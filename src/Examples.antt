-- ===== src/Examples.antt =====
-- Tests of the model, and the theorems at concrete inputs.
mod Limits
mod Shards
mod Sharings
mod Groups
mod Managers
mod Identifies
mod Streams
mod Connections
mod Keys
mod Exported
mod Programs
mod Configs
mod Startups
mod Spawns
mod Overdrafts
mod Overlaps
