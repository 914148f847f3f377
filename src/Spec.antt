-- ===== src/Spec.antt =====
-- internal/spec: the pure builders for labels, names, environments, mounts and container configs.
pub mod Labels
pub mod Cache
pub mod Dind
pub mod Env
pub mod Helpers
pub mod Mounts
pub mod Names
pub mod OsRelease
