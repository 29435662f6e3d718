-- ===== src/Flash/Samba/Monitor/Writes.antt =====
-- What the monitor is told to write, in the checks of a flash and after them
-- (src/flash/samba.rs).
use aldis.Prelude.{
  ◌++◌, ℕ, zero, suc, ltb, ◌+◌, ◌/◌, ◌≤◌, ◌==◌, ◌||◌, not, if◌then◌else◌, Bytes, length, Result, ok,
  err, ◌>>=◌, ◌>>◌, pure, raise, ◌≡◌, ◌⊎◌, inl, inr, refl, Option, none, some,
}
use aldis.Prelude.Keeps.{Keeps, bind-Keeps, if-Keeps}
use aldis.Prelude.Text.{Text, codes, is_empty}
use aldis.Flash.Samba.{empty_firmware, unsupported_chip}
use aldis.Flash.Samba.Monitor.Addresses.{number_after}
use aldis.Flash.Samba.Monitor.{
  on_port, is_tail, SambaPort, Monitor, chunk_size, padded_length, padded, nvmctrl_param,
  dsu_device_id, nvm_user_row, samd21_device_id, command, hex8, max_version_line, handshake,
  read_ack, unless_silent, read_line, read_banner, read_trailing, after_read, byte_of, read_word,
  protected_bootloader_size, flash_size, expect_start, expect_room, check_target,
}

-- What only asks: for no prompt, for the version, and for a word of memory.
abbrev pub IsQuestion : Bytes → Type 0
IsQuestion bytes =
    (bytes ≡ codes "N#")
    ⊎ ((bytes ≡ codes "V#") ⊎ ((address : ℕ) × (bytes ≡ command (codes "w") address (codes "4"))))

-- What programs a flash: a block that is staged in RAM, its copy to a place at or above the start and
-- before the end of the flash, a checksum, and the reset of the chip.
pub data IsOrder (start size : ℕ) (bytes : Bytes) : Type 0 where
  staging : bytes ≡ command (codes "S") 0x20004000 (hex8 0x1000) → IsOrder start size bytes
  block : length bytes ≡ 0x1000 → IsOrder start size bytes
  source : bytes ≡ command (codes "Y") 0x20004000 (codes "0") → IsOrder start size bytes
  copy :
      (address : ℕ) (digits : Text)
      → start ≤ address
      → address + 0x1000 ≤ size
      → length digits ≡ 8
      → number_after 0 digits ≡ address
      → bytes ≡ codes "Y" ++ (digits ++ codes ",00001000#")
      → IsOrder start size bytes
  sum :
      (address count : ℕ)
      → bytes ≡ command (codes "Z") address (hex8 count)
      → IsOrder start size bytes
  restart : bytes ≡ command (codes "W") 0xE000ED0C (hex8 0x05FA0004) → IsOrder start size bytes

-- A block of a chunk's size, at or above the application's start, before the end of the flash.
abbrev pub InFlash : ℕ → ℕ → ℕ × Bytes → Type 0
InFlash start size (address, chunk) =
    (start ≤ address) × ((address + chunk_size ≤ size) × (length (padded chunk) ≡ chunk_size))

module _ {S IE : Type 0} (port : SambaPort S IE) (P : S → Type 0) where
  -- what reading and flushing keep
  pub record IsKept : Type 0 where
    pub flushes : Keeps P port.flush
    pub reads_exact : (n : ℕ) → Keeps P (port.read_exact n)
    pub reads : Keeps P port.read
    pub discards : Keeps P port.discard_input

  module _ (kept : IsKept)
      (asks : (bytes : Bytes) → IsQuestion bytes → Keeps P (port.write_all bytes)) where
    exactly : (n : ℕ) → Keeps P (on_port port (port.read_exact n))
    exactly n = kept.reads_exact n

    read_line-Keeps : (room byte : ℕ) → Keeps P (read_line port room byte)
    unfolding read_line
    read_line-Keeps zero byte = if-Keeps P (byte == 10) _ _ (λ s p. p) (λ s p. p)
    read_line-Keeps (suc room) byte =
        if-Keeps P (byte == 10) _ _ (λ s p. p)
          (bind-Keeps P (on_port port (port.read_exact 1)) _ (exactly 1)
            (λ next. read_line-Keeps room (byte_of port next)))

    read_banner-Keeps : (skips : ℕ) → Keeps P (read_banner port skips)
    unfolding read_banner
    read_banner-Keeps zero =
        bind-Keeps P (on_port port (port.read_exact 1)) _ (exactly 1)
          (λ byte. read_line-Keeps max_version_line (byte_of port byte))
    read_banner-Keeps (suc skips) =
        bind-Keeps P (on_port port (port.read_exact 1)) _ (exactly 1) (λ byte.
          if-Keeps P (is_tail port (byte_of port byte)) _ _ (read_banner-Keeps skips)
            (read_line-Keeps max_version_line (byte_of port byte)))

    after-Keeps :
        (r : Result IE (Unit {0})) (next : Monitor port (Unit {0}))
        → Keeps P next
        → Keeps P (after_read port r next)
    after-Keeps (ok u) next h = h
    after-Keeps (err e) next h = if-Keeps P (port.is_timed_out e) _ _ (λ s p. p) (λ s p. p)

    read_trailing-Keeps : (n : ℕ) → Keeps P (read_trailing port n)
    unfolding read_trailing
    read_trailing-Keeps zero s p = p
    read_trailing-Keeps (suc n) s p =
        after-Keeps (port.read s).0 (read_trailing port n) (read_trailing-Keeps n) (port.read s).1
          (kept.reads s p)

    silent-Keeps : (r : Result IE Bytes) → Keeps P (unless_silent port r)
    silent-Keeps (ok ack) = λ s p. p
    silent-Keeps (err e) =
        if-Keeps P (port.is_timed_out e || port.is_unexpected_eof e) _ _ (λ s p. p) (λ s p. p)

    read_ack-Keeps : Keeps P (read_ack port)
    read_ack-Keeps s p =
        silent-Keeps (port.read_exact 2 s).0 (port.read_exact 2 s).1 (kept.reads_exact 2 s p)

    handshake-Keeps : Keeps P (handshake port)
    unfolding handshake
    handshake-Keeps =
        bind-Keeps P (on_port port (port.write_all (codes "N#"))) _ (asks (codes "N#") (inl refl))
          (λ u. bind-Keeps P (on_port port port.flush) _ kept.flushes (λ u.
            bind-Keeps P (read_ack port) _ read_ack-Keeps (λ u.
              bind-Keeps P (on_port port port.discard_input) _ kept.discards (λ u.
                bind-Keeps P (on_port port (port.write_all (codes "V#"))) _
                  (asks (codes "V#") (inr (inl refl)))
                  (λ u. bind-Keeps P (on_port port port.flush) _ kept.flushes (λ u.
                    bind-Keeps P (read_banner port 2) _ (read_banner-Keeps 2)
                      (λ u. read_trailing-Keeps 2)))))))

    read_word-Keeps : (address : ℕ) → Keeps P (read_word port address)
    unfolding read_word
    read_word-Keeps address =
        bind-Keeps P (on_port port (port.write_all (command (codes "w") address (codes "4")))) _
          (asks (command (codes "w") address (codes "4")) (inr (inr (address, refl))))
          (λ u. bind-Keeps P (on_port port (port.read_exact 4)) _ (exactly 4) (λ word s p. p))

    protected-Keeps : Keeps P (protected_bootloader_size port)
    unfolding protected_bootloader_size
    protected-Keeps =
        bind-Keeps P (read_word port nvm_user_row) _ (read_word-Keeps nvm_user_row) (λ row s p. p)

    flash_size-Keeps : Keeps P (flash_size port)
    unfolding flash_size
    flash_size-Keeps =
        bind-Keeps P (read_word port nvmctrl_param) _ (read_word-Keeps nvmctrl_param)
          (λ param s p. p)

    expect_start-Keeps : (start : ℕ) (fuse : Option ℕ) → Keeps P (expect_start port start fuse)
    expect_start-Keeps start none = λ s p. p
    expect_start-Keeps start (some size) = if-Keeps P (size == start) _ _ (λ s p. p) (λ s p. p)

    -- The checks of a flash only ask.
    pub check_target-Keeps :
        (start : ℕ) (firmware : Bytes) → Keeps P (check_target port start firmware)
    unfolding check_target
    check_target-Keeps start firmware =
        let end = start + padded_length firmware in
        let sized : ℕ → Monitor port ℕ = λ size. expect_room port end size >> pure size in
        let begun : Option ℕ → Monitor port ℕ =
          λ fuse. expect_start port start fuse >> (flash_size port >>= sized) in
        let known : ℕ → Monitor port ℕ = λ id.
          if not (id / 0x10000 == samd21_device_id)
          then raise (unsupported_chip id)
          else protected_bootloader_size port >>= begun in
        let asked : Monitor port ℕ = read_word port dsu_device_id >>= known in
        if-Keeps P (is_empty firmware) (raise empty_firmware) (handshake port >> asked) (λ s p. p)
          (bind-Keeps P (handshake port) (λ u. asked) handshake-Keeps
            (λ u.
              bind-Keeps P (read_word port dsu_device_id) known (read_word-Keeps dsu_device_id)
                (λ id.
                  if-Keeps P (not (id / 0x10000 == samd21_device_id)) (raise (unsupported_chip id))
                    (protected_bootloader_size port >>= begun) (λ s p. p)
                    (bind-Keeps P (protected_bootloader_size port) begun protected-Keeps (λ fuse.
                      bind-Keeps P (expect_start port start fuse) (λ u. flash_size port >>= sized)
                        (expect_start-Keeps start fuse)
                        (λ u. bind-Keeps P (flash_size port) sized flash_size-Keeps (λ size.
                          bind-Keeps P (expect_room port end size) (λ u. pure size)
                            (if-Keeps P (ltb size end) _ _ (λ s p. p) (λ s p. p))
                            (λ u s p. p))))))))
