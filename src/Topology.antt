-- ===== src/Topology.antt =====
-- internal/topology: the resources of one allocation, created and removed through the daemon.
pub mod Cache
pub mod Create
pub mod Gc
pub mod Reports
pub mod Sweep
pub mod Teardown
