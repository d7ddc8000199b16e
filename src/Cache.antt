-- ===== src/Cache.antt =====
-- The caches of utils/cache behind the interface `Cacher`, and the map of utils/linkedhashmap.
pub mod Cacher
pub mod LinkedHashmap
pub mod Lru
pub mod Forgets
pub mod SizedLru
