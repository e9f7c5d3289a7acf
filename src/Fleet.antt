-- ===== src/Fleet.antt =====
-- internal/fleet: the control node's registry of workers, placement, and the capacity figures.
pub mod Registry
pub mod Place
pub mod Hits
pub mod Quotas
mod Examples
