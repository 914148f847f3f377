-- ===== src/Checks.antt =====
-- Runs and instances at concrete inputs.
mod Daemon
mod Engine
mod Fake
mod Provider
mod Start
mod Reports
mod Teardown
mod Volumes
mod Topology
mod Spec
mod Config
