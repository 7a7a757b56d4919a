-- ===== src/Util.antt =====
-- pkg/util
pub mod Remotes
