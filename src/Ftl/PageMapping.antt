-- ===== src/Ftl/PageMapping.antt =====
-- ftl/page_mapping.cc: the mapping of logical pages to units of blocks.
pub mod State
pub mod Alloc
pub mod Access
pub mod Consistent
pub mod Attach
pub mod Detach
pub mod FreeList
pub mod Open
pub mod Room
pub mod WriteLoop
pub mod Write
pub mod Create
pub mod Trim
pub mod Read
pub mod Handlers
pub mod Recycle
pub mod Erase
pub mod Victim
pub mod Collect
pub mod Upkeep
pub mod Status
pub mod VictimTests
pub mod Tests
