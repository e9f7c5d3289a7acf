-- ===== src/Proxy.antt =====
-- internal/proxy/proxy.go: the router in front of the previews.
pub mod Access
pub mod Hosts
mod Gate
mod Address
mod Examples
