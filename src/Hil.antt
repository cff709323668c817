-- ===== src/Hil.antt =====
-- hil/: the host interfaces.
pub mod Nvme
