-- ===== src/Flash/Samba/Monitor/Examples.antt =====
-- A SAMD21 with 256 KiB of flash whose bootloader takes 8 KiB, as a stream of its replies.
use aldis.Prelude.{
  ◌≤◌, arith, length-drop, ℕ, ltb, true, false, if◌then◌else◌, [], ◌∷◌, ◌++◌, Bytes, length, take,
  drop, bytes_eq, none, ok, err, ◌≡◌, refl,
}
use aldis.Prelude.Text.{
  codes, any, lines, split, trim, trim_start, trim_end, strip_prefix, strip_suffix, starts_with,
}
use aldis.Prelude.Iter.{find, filter_map}
use aldis.Prelude.Chunks.{chunks, chunks_from}
use aldis.Flash.Samba.{target_from_kconfig, is_flashable_part, samd21_part, insufficient_ram}
use aldis.Flash.Samba.Monitor.{
  SambaPort, flash, check_target, program, handshake, read_banner, read_line, read_trailing,
  read_word, write_word, stage, write_flash, expect_copy_ack, checksum, crc_of_reply, hex_digits,
  crc16_xmodem, xmodem_from, flash_size, protected_bootloader_size, reset, write_blocks,
  verify_blocks, placed,
}
use aldis.Flash.Samba.Monitor.Writes.{IsKept}
use aldis.Flash.Samba.Monitor.Bounds.{FlashOutcome, flash-InFlash}

-- Errors: 0 is a timeout.
abbrev stream : SambaPort Bytes ℕ
stream = record {
  write_all = λ bytes. λ s. (ok tt, s);
  flush = λ s. (ok tt, s);
  read_exact = λ n. λ s. if ltb (length s) n then (err 0, s) else (ok (take n s), drop n s);
  read = λ s. if ltb (length s) 1 then (err 0, s) else (ok tt, drop 1 s);
  discard_input = λ s. (ok tt, s);
  is_timed_out = λ e. true;
  is_unexpected_eof = λ e. false;
}

abbrev replies : Bytes
replies =
    codes "\n\rv1.1\n\r"
    ++ (0
        ∷ 0x00
        ∷ 0x00
        ∷ 0x01
        ∷ 0x10
        ∷ 0x02
        ∷ 0x00
        ∷ 0x00
        ∷ 0x00
        ∷ 0x00
        ∷ 0x10
        ∷ 0x03
        ∷ 0x00
        ∷ codes "Y\n\rY\n\rZ00006131#\n\r")

flashes :
    flash stream 0x2000 (1 ∷ 2 ∷ 3 ∷ []) replies
    ≡ (ok (record { reported_pages = none; padded_bytes = 0x1000 }), [])
unfolding flash check_target program handshake read_banner read_line read_trailing read_word
    write_word stage write_flash expect_copy_ack checksum crc_of_reply hex_digits crc16_xmodem
    xmodem_from flash_size protected_bootloader_size reset write_blocks verify_blocks placed chunks
    chunks_from bytes_eq
flashes = refl

-- The replies that are still to come do not get longer.
abbrev IsShort : Bytes → Type 0
IsShort s = length s ≤ 64

kept : IsKept stream IsShort
kept = record {
  flushes = λ s p. p;
  reads_exact = λ n s p. ground (arith, length-drop n s, p);
  reads = λ s p. ground (arith, length-drop 1 s, p);
  discards = λ s p. p;
}

flash-InFlash_example :
    FlashOutcome stream IsShort
      (λ size. IsShort)
      0x2000
      (1 ∷ 2 ∷ 3 ∷ [])
      replies
      (flash stream 0x2000 (1 ∷ 2 ∷ 3 ∷ []) replies)
flash-InFlash_example =
    flash-InFlash stream IsShort (λ size. IsShort) 0x2000 (1 ∷ 2 ∷ 3 ∷ []) replies kept
      (λ bytes q s p. p) (λ size. kept) (λ size bytes o s p. p)

small_part :
    target_from_kconfig {IE = ℕ} (codes "CONFIG_MACH_SAMD21=y\nCONFIG_MACH_SAMD21G17=y\n")
    ≡ err (insufficient_ram (codes "SAMD21G17"))
unfolding target_from_kconfig is_flashable_part samd21_part find filter_map any lines split trim
    trim_start trim_end strip_prefix strip_suffix starts_with bytes_eq
small_part = refl
