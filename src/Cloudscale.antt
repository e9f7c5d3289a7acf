-- ===== src/Cloudscale.antt =====
-- internal/cloudscale: what the control node publishes to the autoscaling group and which instances
-- it protects from scale-in.
pub mod Protection
pub mod Synced
mod Examples
