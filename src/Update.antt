-- ===== src/Update.antt =====
-- vakt-update: fetching, checking and staging an image of the system.
pub mod Action
pub mod Bundle
pub mod Apply
pub mod Staged
pub mod Cycle
mod Tests
