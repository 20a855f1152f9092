-- ===== src/Cdn.antt =====
-- internal/cdn and internal/domain/cdn.go: the sites and origins of the content delivery network.
pub mod Validation
