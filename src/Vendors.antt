-- ===== src/Vendors.antt =====
-- Firmware that vendors publish and aldis does not build (src/foci.rs, src/beacon.rs,
-- src/cartographer.rs).
pub mod Foci
pub mod Beacon
pub mod Cartographer
