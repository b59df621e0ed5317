-- ===== src/Redis.antt =====
-- The Redis server, which the repository calls and does not contain: what its commands do, as far
-- as the callers rely on it, in terms of a view of the stored data. `Reference` is a small model at
-- which these laws hold, for concrete runs.
pub mod SortedSets
pub mod Reference
