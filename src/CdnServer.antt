-- ===== src/CdnServer.antt =====
-- internal/cdnserver: what a node does to serve CDN sites.
pub mod Cache
pub mod DiskCache
