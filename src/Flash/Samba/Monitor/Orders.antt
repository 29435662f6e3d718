-- ===== src/Flash/Samba/Monitor/Orders.antt =====
-- What programming a flash orders (src/flash/samba.rs).
use aldis.Prelude.{
  arith, ◌<◌, ◌^◌, ℕ, ap, ◌+◌, ◌≤◌, ◌==◌, not, List, [], ◌∷◌, All, Bytes, length, ◌>>=◌, ◌>>◌, pure,
  ◌≡◌, refl, bytes_eq, Option, none, some,
}
use aldis.Prelude.Keeps.{Keeps, bind-Keeps, if-Keeps}
use aldis.Prelude.Text.{codes}
use aldis.Prelude.Chunks.{chunks}
use aldis.Flash.{FlashResult}
use aldis.Flash.Samba.Monitor.Addresses.{hex8-number}
use aldis.Flash.Samba.Monitor.{
  on_port, SambaPort, Monitor, chunk_size, padded_length, padded, placed, staging_address, aircr,
  aircr_sysresetreq, command, hex8, write_word, stage, expect_copy_ack, write_flash, checksum,
  crc_or, crc_of_reply, reset, crc16_xmodem, copy_ack, write_blocks, verify_blocks, program,
}
use aldis.Flash.Samba.Monitor.Writes.{
  IsOrder, staging, block, source, copy, sum, restart, InFlash, IsKept,
}

module _ {S IE : Type 0} (port : SambaPort S IE) (P : S → Type 0) where
  module _ (kept : IsKept port P) (start size : ℕ) (small : size < 2 ^ 32)
      (orders : (bytes : Bytes) → IsOrder start size bytes → Keeps P (port.write_all bytes)) where
    ack-Keeps : Keeps P (expect_copy_ack port)
    unfolding expect_copy_ack
    ack-Keeps =
        bind-Keeps P (on_port port (port.read_exact 3)) _ (kept.reads_exact 3)
          (λ reply. if-Keeps P (bytes_eq reply copy_ack) _ _ (λ s p. p) (λ s p. p))

    stage-Keeps : (bytes : Bytes) → length bytes ≡ 0x1000 → Keeps P (stage port bytes)
    unfolding stage
    stage-Keeps bytes h =
        let order = command (codes "S") staging_address (hex8 (length bytes)) in
        bind-Keeps P (on_port port (port.write_all order))
          (λ u. on_port port (port.write_all bytes))
          (orders order (staging (ap (λ n. command (codes "S") staging_address (hex8 n)) h)))
          (λ u. orders bytes (block h))

    write_flash-Keeps :
        (address : ℕ)
        → start ≤ address
        → address + 0x1000 ≤ size
        → Keeps P (write_flash port address chunk_size)
    unfolding write_flash
    write_flash-Keeps address h k =
        let from = command (codes "Y") staging_address (codes "0") in
        let to = command (codes "Y") address (hex8 chunk_size) in
        let copied : Unit {0} → Monitor port (Unit {0}) =
          λ u. on_port port (port.write_all to) >> expect_copy_ack port in
        bind-Keeps P (on_port port (port.write_all from)) (λ u. expect_copy_ack port >>= copied)
          (orders from (source refl))
          (λ u. bind-Keeps P (expect_copy_ack port) copied ack-Keeps (λ u.
            bind-Keeps P (on_port port (port.write_all to)) (λ u. expect_copy_ack port)
              (orders to
                (copy address (hex8 address) h k refl (hex8-number address (omega arith)) refl))
              (λ u. ack-Keeps)))

    write_blocks-Keeps :
        (blocks : List (ℕ × Bytes))
        → All (InFlash start size) blocks
        → Keeps P (write_blocks port blocks)
    unfolding write_blocks
    write_blocks-Keeps [] h = λ s p. p
    write_blocks-Keeps ((address, chunk) ∷ rest) h =
        let (above, (below, whole)) = h.0 in
        let written : Unit {0} → Monitor port (Unit {0}) =
          λ u. write_flash port address chunk_size >> write_blocks port rest in
        bind-Keeps P (stage port (padded chunk)) written (stage-Keeps (padded chunk) whole) (λ u.
          bind-Keeps P (write_flash port address chunk_size) (λ u. write_blocks port rest)
            (write_flash-Keeps address above below) (λ u. write_blocks-Keeps rest h.1))

    crc-Keeps : (crc : Option ℕ) → Keeps P (crc_or port crc)
    crc-Keeps (some crc) = λ s p. p
    crc-Keeps none = λ s p. p

    checksum-Keeps : (address count : ℕ) → Keeps P (checksum port address count)
    unfolding checksum
    checksum-Keeps address count =
        let order = command (codes "Z") address (hex8 count) in
        let judge : Bytes → Monitor port ℕ = λ reply. crc_or port (crc_of_reply reply) in
        bind-Keeps P (on_port port (port.write_all order))
          (λ u. on_port port (port.read_exact 12) >>= judge) (orders order (sum address count refl))
          (λ u.
            bind-Keeps P (on_port port (port.read_exact 12)) judge (kept.reads_exact 12)
              (λ reply. crc-Keeps (crc_of_reply reply)))

    verify_blocks-Keeps : (blocks : List (ℕ × Bytes)) → Keeps P (verify_blocks port blocks)
    unfolding verify_blocks
    verify_blocks-Keeps [] = λ s p. p
    verify_blocks-Keeps ((address, chunk) ∷ rest) =
        bind-Keeps P (checksum port address (length chunk)) _
          (checksum-Keeps address (length chunk))
          (λ crc.
            if-Keeps P (not (crc == crc16_xmodem chunk)) _ _ (λ s p. p) (verify_blocks-Keeps rest))

    reset-Keeps : Keeps P (reset port)
    unfolding reset write_word
    reset-Keeps =
        let order = command (codes "W") aircr (hex8 aircr_sysresetreq) in
        bind-Keeps P (on_port port (port.write_all order)) (λ u. on_port port port.flush)
          (orders order (restart refl)) (λ u. kept.flushes)

    -- Programming orders nothing else.
    pub program-Keeps :
        (firmware : Bytes)
        → All (InFlash start size) (placed start 0 (chunks chunk_size firmware))
        → Keeps P (program port start firmware)
    unfolding program
    program-Keeps firmware h =
        let blocks = placed start 0 (chunks chunk_size firmware) in
        let done : Monitor port FlashResult =
          pure (record { reported_pages = none; padded_bytes = padded_length firmware }) in
        let restarted : Unit {0} → Monitor port FlashResult = λ u. reset port >> done in
        let verified : Unit {0} → Monitor port FlashResult =
          λ u. verify_blocks port blocks >>= restarted in
        bind-Keeps P (write_blocks port blocks) verified (write_blocks-Keeps blocks h) (λ u.
          bind-Keeps P (verify_blocks port blocks) restarted (verify_blocks-Keeps blocks)
            (λ u. bind-Keeps P (reset port) (λ u. done) reset-Keeps (λ u s p. p)))
