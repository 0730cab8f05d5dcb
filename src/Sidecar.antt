-- ===== src/Sidecar.antt =====
-- k8s/mesh/sidecar: the data plane proxy.
pub mod Config
pub mod Errors
pub mod Context
pub mod World
pub mod Breaker
pub mod Observe
pub mod Cache
pub mod Discovery
pub mod Forwarder
pub mod Routing
pub mod Retry
pub mod Service
