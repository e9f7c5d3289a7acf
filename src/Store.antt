-- ===== src/Store.antt =====
-- internal/store: content-addressed artifacts on disk and the local cache of the durable tier.
pub mod Cache
