-- ===== src/Permissions.antt =====
-- Deployment and streaming permissions: the manager over the tables
-- (src/adapters/permissions-manager.ts) and the component over the manager
-- (src/logic/permissions/component.ts).
pub mod Manager
pub mod Component
pub mod Rows
pub mod Effects
pub mod Replace
pub mod Setting
pub mod Counting
pub mod Checks
pub mod Parcels
pub mod Tests
