-- ===== src/Icl/Cache.antt =====
-- icl/generic_cache.cc: the set-associative cache between the host interface and the FTL.
pub mod State
pub mod Lines
pub mod Search
pub mod Coherent
pub mod Position
pub mod Evictions
pub mod Victims
pub mod Chosen
pub mod Placed
pub mod Times
pub mod Writes
pub mod Cleared
pub mod Flushes
pub mod Clean
pub mod Misses
pub mod Hits
pub mod Created
pub mod Tests
pub mod Ways
pub mod Evict
pub mod Fetch
pub mod Store
pub mod Ranges
