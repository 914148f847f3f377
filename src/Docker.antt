-- ===== src/Docker.antt =====
-- internal/docker: what the provider uses of Docker.
pub mod Client
pub mod Configs
pub mod Containers
pub mod Fake
pub mod Filters
