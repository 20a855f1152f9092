-- ===== src/Dns.antt =====
-- internal/dns and the DNS tables of internal/storage/sqlite.
pub mod Types
pub mod Validation
pub mod Store
pub mod Records
pub mod Config
pub mod Zones
