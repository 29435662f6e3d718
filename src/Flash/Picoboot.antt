-- ===== src/Flash/Picoboot.antt =====
-- UF2 images (src/flash/picoboot.rs): `decode_uf2`. The transfer over USB is the picoboot crate's.
pub mod Contiguous
use aldis.Prelude.{
  ℕ, suc, ◌+◌, ◌-◌, ◌*◌, ◌/◌, ◌%◌, ◌^◌, ◌==◌, leb, ◌&&◌, ◌||◌, not, Bool, true, false,
  if◌then◌else◌, List, [], ◌∷◌, ◌++◌, Bytes, length, take, drop, Option, none, some, Result, ok,
  err,
}
use aldis.Prelude.Words.{u32_from_le}
use aldis.Prelude.Chunks.{chunks}

pub record Uf2Image : Type 0 where
  pub address : ℕ
  pub bytes : Bytes

pub data Uf2Error : Type 0 where
  invalid_length invalid_block non_contiguous : Uf2Error

abbrev pub block_size : ℕ
block_size = 512

abbrev pub magic_start_0 : ℕ
magic_start_0 = 0x0a324655

abbrev pub magic_start_1 : ℕ
magic_start_1 = 0x9e5d5157

abbrev pub magic_end : ℕ
magic_end = 0x0ab16f30

abbrev pub flag_family_id_present : ℕ
flag_family_id_present = 0x00002000

abbrev pub rp2040_family_id : ℕ
rp2040_family_id = 0xe48bff56

abbrev pub page_size : ℕ
page_size = 256

abbrev pub rp2040_flash_start : ℕ
rp2040_flash_start = 0x10000000

-- the closure `word`
abbrev pub word : Bytes → ℕ → ℕ
word block offset = u32_from_le (take 4 (drop offset block))

-- `flags & FLAG_FAMILY_ID_PRESENT != 0`: one bit
abbrev pub has_flag : ℕ → Bool
has_flag flags = flags / flag_family_id_present % 2 == 1

-- none of the tests of a block that refuse it
unfoldable pub is_block : ℕ → ℕ → Bytes → Bool
is_block block_count index block =
    word block 0 == magic_start_0
    && word block 4 == magic_start_1
    && word block 508 == magic_end
    && has_flag (word block 8)
    && word block 28 == rp2040_family_id
    && word block 16 == page_size
    && word block 20 == index % 2 ^ 32
    && word block 24 == block_count % 2 ^ 32
    && leb rp2040_flash_start (word block 12)
    && word block 12 % page_size == 0

-- `block[32..32 + payload_size]` of a block that is not refused
abbrev pub payload : Bytes → Bytes
payload block = take page_size (drop 32 block)

abbrev pub first_of : Option ℕ → ℕ → ℕ
first_of none address = address
first_of (some first) address = first

-- `first_address + image.len() as u32`, which wraps
abbrev pub next_address : ℕ → ℕ → ℕ
next_address first image_length = (first + image_length % 2 ^ 32) % 2 ^ 32

abbrev pub in_sequence : Option ℕ → ℕ → ℕ → Bool
in_sequence none image_length address = true
in_sequence (some first) image_length address = address == next_address first image_length

-- `start.expect(..)`: there is a first block, since an empty image is refused
abbrev pub expect_start : Option ℕ → ℕ
expect_start none = 0
expect_start (some address) = address

-- the loop over the blocks
unfoldable pub decode_blocks : ℕ → ℕ → Option ℕ → Bytes → List Bytes → Result Uf2Error Uf2Image
unfolding is_block
decode_blocks count index start image [] =
    ok (record { address = expect_start start; bytes = image })
decode_blocks count index start image (block ∷ blocks) =
    let address = word block 12 in
    let rest =
      decode_blocks count (suc index) (some (first_of start address)) (image ++ payload block)
        blocks in
    if not (is_block count index block)
    then err invalid_block
    else if not (in_sequence start (length image) address)
    then err non_contiguous
    else rest

unfoldable pub decode_uf2 : Bytes → Result Uf2Error Uf2Image
unfolding decode_blocks
decode_uf2 firmware =
    if length firmware == 0 || not (length firmware % block_size == 0)
    then err invalid_length
    else let blocks = chunks block_size firmware in decode_blocks (length blocks) 0 none [] blocks
