-- ===== src/Provider.antt =====
-- internal/provider: the provider's commands.
pub mod Commands
pub mod Helpers
pub mod Instances
pub mod Resolver
pub mod Start
pub mod Throttle
