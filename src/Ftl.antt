-- ===== src/Ftl.antt =====
-- ftl/: the flash translation layer.
pub mod Block
pub mod PageMapping
pub mod Front
