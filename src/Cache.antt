-- ===== src/Cache.antt =====
-- The xDS cache of internal/flowc/xds/cache.
pub mod Xds
pub mod Merge
pub mod Manager
