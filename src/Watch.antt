-- ===== src/Watch.antt =====
-- internal/watch/watch.go: the poller that deploys new branch tips.
pub mod Globs
pub mod Poll
mod Matching
mod Branches
mod Baseline
mod Examples
