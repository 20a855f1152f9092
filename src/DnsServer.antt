-- ===== src/DnsServer.antt =====
-- internal/dnsserver: the authoritative server that a node runs for its zones. Sockets are left out.
pub mod Records
pub mod Zones
pub mod Transfer
pub mod Query
pub mod Served
