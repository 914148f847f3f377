-- ===== src/Config.antt =====
-- internal/config: the provider's configuration, as far as pools' requests are bounded by it.
pub mod ByteSize
pub mod Cache
pub mod Settings
