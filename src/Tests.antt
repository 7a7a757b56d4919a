-- ===== src/Tests.antt =====
-- The theorems at concrete inputs.
mod Trees
mod Machines
mod Refreshes
mod Names
mod Guards
mod Caches
mod Services
mod Snapshots
mod Packages
mod Runs
mod Repositories
mod Remotes
mod Addresses
