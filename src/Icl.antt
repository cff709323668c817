-- ===== src/Icl.antt =====
-- icl/: the cache layer, between the host interface and the FTL.
pub mod Cache
pub mod Front
pub mod Split
pub mod Stack
pub mod Keeps
pub mod Tests
