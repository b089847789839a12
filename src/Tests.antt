-- ===== src/Tests.antt =====
-- Runs of the models at inputs that can be followed in the source, and each theorem at such an input.
mod Pool
mod Clients
mod Master
mod Scaling
mod Sync
mod Cloud
mod Daemon
mod Metrics
mod Nodes
