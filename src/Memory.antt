-- ===== src/Memory.antt =====
-- Physical memory: src/mm.
pub mod Pmm
mod Tests
