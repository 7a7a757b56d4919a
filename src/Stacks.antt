-- ===== src/Stacks.antt =====
-- pkg/cmd/stacks
pub mod Names
pub mod Paths
pub mod Apps
pub mod Revisions
pub mod Kustomize
pub mod Changes
pub mod Planner
pub mod Host
pub mod Superseding
pub mod Wait
pub mod Refresh
pub mod Webhook
pub mod Redaction
pub mod Cache
pub mod Bootstrap
pub mod Engine
pub mod Gitea
pub mod Status
pub mod Talos
pub mod Files
pub mod Worktree
pub mod Push
