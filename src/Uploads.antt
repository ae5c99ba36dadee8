-- ===== src/Uploads.antt =====
-- Uploads of multipart bodies: src/logic/multipart.ts.
pub mod Budget
pub mod Calls
pub mod Accounts
pub mod Invariant
pub mod Closing
pub mod Parser
pub mod Wrapper
pub mod Covering
pub mod Parsing
pub mod Settling
pub mod Tests
