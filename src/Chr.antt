-- ===== src/Chr.antt =====
-- The directory kernel/chr_drv/: terminals.
pub mod Queue
pub mod Console
pub mod Tty
