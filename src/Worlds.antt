-- ===== src/Worlds.antt =====
-- The worlds and their scenes: src/adapters/worlds-manager.ts.
pub mod Basic
pub mod Scenes
pub mod Manager
pub mod Inversion
pub mod Overlap
pub mod Deployed
pub mod Stats
pub mod Reachable
pub mod Settings
pub mod Spawn
pub mod Tests
