-- ===== src/Spec/Cache.antt =====
-- internal/spec/cache.go: cache keys, the names and labels of cache volumes, and the checks that
-- decide whether a volume is a given cache. `sha256_hex` stands for SHA-256 in hexadecimal.
pub mod Keys
pub mod Identity
pub mod Adoption
pub mod Exclusion
pub mod Gc
