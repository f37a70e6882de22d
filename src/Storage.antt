-- ===== src/Storage.antt =====
-- The storage stack: the block layer, RAM disks, and pools of extents with volumes on them.
pub mod Block
pub mod MemBlock
pub mod Pool
pub mod Volume
pub mod Raft
pub mod Distributed
mod Tests
