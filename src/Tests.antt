-- ===== src/Tests.antt =====
-- Runs at fixed inputs, and the theorems at inputs that meet their hypotheses.
mod Store
mod Dedicated
mod DumpServer
mod Events
mod Offload
mod Pending
mod Spares
mod Startup
mod Tiering
mod Janitors
mod Entries
mod Sweeping
mod Draining
mod Overtaking
