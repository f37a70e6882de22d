-- ===== src/Virtio.antt =====
-- Virtual devices: src/virtio/virtio.c, src/virtio/virtio_blk.c and their headers.
pub mod Queue
pub mod Device
pub mod Disk
mod Tests
