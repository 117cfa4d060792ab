-- ===== src/Factory.antt =====
-- The factory of repositories: internal/factory.
pub mod Catalog
pub mod Validate
pub mod Disk
pub mod Render
pub mod Write
pub mod Generate
pub mod Command
mod Tests
