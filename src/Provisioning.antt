-- ===== src/Provisioning.antt =====
-- internal/provisioning and internal/domain/provisioning.go: jobs that change the nodes.
pub mod Actions
pub mod Pipeline
pub mod Start
pub mod Lifecycle
pub mod Overlay
pub mod PeerStore
pub mod Enrollment
