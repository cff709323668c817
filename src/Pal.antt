-- ===== src/Pal.antt =====
-- pal/: the parallelism layer, below the FTL.
pub mod Address
pub mod InRange
pub mod Tests
