-- ===== src/Tests.antt =====
-- Runs of the theorems at concrete inputs.
mod Numbers
mod Specifications
mod Runs
mod Overlaps
mod Schedules
mod Comparisons
mod Environments
mod Documents
mod Resolutions
mod Vaults
mod Commits
mod Migrations
mod Cuts
mod Paths
mod Coverages
