-- ===== src/Route.antt =====
-- internal/route and internal/domain/route.go: forwarding rules from an edge node to a gateway.
pub mod Types
pub mod Validation
pub mod Store
pub mod Service
pub mod Config
