-- ===== src/Vrf.antt =====
-- agent/vrf.c: the array of VRFs.
pub mod Table
pub mod Remove
