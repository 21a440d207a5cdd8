-- ===== src/Pkg.antt =====
-- pkg-manager: zrpkg, the package manager.
pub mod Manifest
pub mod Resolve
pub mod Collect
mod Tests
pub mod Paths
pub mod Fetch
pub mod Config
pub mod Remove
