-- ===== src/Util.antt =====
-- util/: the containers that the simulator's layers share.
pub mod Bitset
