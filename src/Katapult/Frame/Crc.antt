-- ===== src/Katapult/Frame/Crc.antt =====
-- The checksum is a `u16`.
use aldis.Prelude.{ℕ, ◌%◌, ◌<◌, bit_xor, bit_or, [], ◌∷◌, Bytes, AreBytes, arith}
use aldis.Prelude.Bits.{bit_xor-lt, bit_or-lt}
use aldis.Prelude.Words.{shl, shr}
use aldis.Katapult.Frame.{mix, fold_in, crc_round, crc_loop, crc16_ccitt}

mix-lt : (d : ℕ) → d < 256 → mix d < 256
mix-lt d h = bit_xor-lt 8 d (shl 16 (d % 16) 4) h (omega arith)

fold_in-lt : (crc d : ℕ) → crc < 65536 → d < 256 → fold_in crc d < 65536
fold_in-lt crc d h k =
    bit_xor-lt 16 (bit_xor (bit_or (shl 16 d 8) (shr crc 8)) (shr d 4)) (shl 16 d 3)
      (bit_xor-lt 16 (bit_or (shl 16 d 8) (shr crc 8)) (shr d 4)
        (bit_or-lt 16 (shl 16 d 8) (shr crc 8) (omega arith) (omega arith)) (omega arith))
      (omega arith)

crc_round-lt : (crc byte : ℕ) → crc < 65536 → byte < 256 → crc_round crc byte < 65536
unfolding crc_round
crc_round-lt crc byte h k =
    fold_in-lt crc (mix (bit_xor byte (crc % 256))) h
      (mix-lt (bit_xor byte (crc % 256)) (bit_xor-lt 8 byte (crc % 256) k (omega arith)))

crc_loop-lt : (crc : ℕ) (bytes : Bytes) → crc < 65536 → AreBytes bytes → crc_loop crc bytes < 65536
unfolding crc_loop
crc_loop-lt crc [] h k = h
crc_loop-lt crc (byte ∷ rest) h k =
    crc_loop-lt (crc_round crc byte) rest (crc_round-lt crc byte h k.0) k.1

-- The checksum of bytes fits a `u16`.
pub crc16_ccitt-lt : (bytes : Bytes) → AreBytes bytes → crc16_ccitt bytes < 65536
unfolding crc16_ccitt
crc16_ccitt-lt bytes h = crc_loop-lt 0xffff bytes (omega arith) h
