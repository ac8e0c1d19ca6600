-- ===== src/Block.antt =====
-- kernel/blk_drv/ll_rw_blk.c and blk.h: requests to block devices, and the queue of each device.
pub mod Queue
pub mod Elevator
pub mod Requests
pub mod Tests
