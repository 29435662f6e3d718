-- ===== src/Flash.antt =====
-- Flashing by protocol (src/flash.rs, src/flash/): what every backend returns.
pub mod Stm32
pub mod Picoboot
pub mod Samba
mod Examples
use aldis.Prelude.{ℕ, Option}

pub record FlashResult : Type 0 where
  pub reported_pages : Option ℕ
  pub padded_bytes : ℕ
