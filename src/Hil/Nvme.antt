-- ===== src/Hil/Nvme.antt =====
-- hil/nvme/: the NVMe controller.
pub mod Queue
