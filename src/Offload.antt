-- ===== src/Offload.antt =====
-- src/registry.rs: which schema the background work offloads next, and when it is left alone.
pub mod Sweep
pub mod Sweeping
pub mod Pick
pub mod Backoff
pub mod Breaker
pub mod Claims
pub mod Sizing
pub mod Targets
pub mod Policies
pub mod Draining
