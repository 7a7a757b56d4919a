-- ===== src/Controllers.antt =====
-- pkg/controllers
pub mod Packages
pub mod Shutdown
pub mod Localbuild
pub mod GitRepositories
