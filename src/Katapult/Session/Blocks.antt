-- ===== src/Katapult/Session/Blocks.antt =====
-- Geometry, addresses and padding of an upload (src/flash/katapult/session.rs).
use aldis.Prelude.{
  ℕ, ◌+◌, ◌-◌, ◌*◌, ◌/◌, ◌==◌, ltb, if◌then◌else◌, ◌||◌, [], ◌∷◌, ◌++◌, Bytes, length, drop,
  replicate, Option, none, some, Result, ok, err, bit_or,
}
use aldis.Prelude.Words.{shl}

pub record KatapultTarget : Type 0 where
  pub application_start : ℕ
  pub block_size : ℕ

-- `KatapultTarget::new`; the error is the size that is not supported
unfoldable pub new_target : ℕ → ℕ → Result ℕ KatapultTarget
new_target application_start block_size =
    if block_size == 64 || block_size == 128 || block_size == 256 || block_size == 512
    then ok (record { application_start = application_start; block_size = block_size })
    else err block_size

abbrev pub u32_limit : ℕ
u32_limit = 4294967296

-- `none` is the overflow. A product beyond `usize` is beyond `u32` too, and both are this error.
unfoldable pub block_address : KatapultTarget → ℕ → Option ℕ
block_address target index =
    let offset = index * target.block_size in
    if ltb offset u32_limit
    then (if ltb (target.application_start + offset) u32_limit
        then some (target.application_start + offset)
        else none)
    else none

-- `block[..chunk.len()].copy_from_slice(chunk)` on a block of 0xff
unfoldable pub padded_block : Bytes → ℕ → Bytes
padded_block chunk block_size = chunk ++ drop (length chunk) (replicate block_size 0xff)

abbrev pub div_ceil : ℕ → ℕ → ℕ
div_ceil a b = (a + (b - 1)) / b

-- `fold(uuid, |uuid, byte| (uuid << 8) | byte)` in a `u64`
unfoldable pub uuid_from_bytes : ℕ → Bytes → ℕ
uuid_from_bytes uuid [] = uuid
uuid_from_bytes uuid (byte ∷ rest) = uuid_from_bytes (bit_or (shl 64 uuid 8) byte) rest
