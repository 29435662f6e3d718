-- ===== src/Katapult.antt =====
-- The Katapult bootloader protocol: src/flash/katapult/.
pub mod Frame
pub mod Assembler
pub mod Session
pub mod Can
pub mod Serial
pub mod Bootstrap
pub mod Adapter
mod Examples
