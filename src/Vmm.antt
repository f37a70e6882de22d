-- ===== src/Vmm.antt =====
-- The virtualisation of memory: src/vmm/ept.c.
pub mod Ept
mod Tests
