-- ===== src/Cache.antt =====
-- webtool/cache: the in-memory cache, and the lock that is built on a cache.
pub mod InMemory
pub mod Lock
pub mod RedisClient
