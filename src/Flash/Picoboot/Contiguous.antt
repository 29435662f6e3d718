-- ===== src/Flash/Picoboot/Contiguous.antt =====
-- A decoded image is one range of flash, made of the payloads of its blocks in their order.
use aldis.Prelude.{
  ℕ, suc, ◌+◌, ◌/◌, ◌%◌, ◌^◌, ◌≤◌, ◌<◌, ◌==◌, ==_iff, leb, leb→le, &&-eq-true, ◌||◌, not, true,
  Bool-cases, List, [], ◌∷◌, ◌++◌, append_assoc, append-nil, ◌≡◌, refl, ap, sym, ◌∙◌, arith, Bytes,
  AreBytes, drop-AreBytes, All-left, length, length-append, flatten, drop, none, some, ok, inl, inr,
}
use aldis.Prelude.Words.{u32_from_le-lt}
use aldis.Prelude.Chunks.{chunks, flatten-chunks}
use aldis.Flash.Picoboot.{
  Uf2Image, word, is_block, payload, next_address, decode_blocks, decode_uf2,
}

-- A UF2 block for an RP2040 with 256 bytes for flash, the block of this number of so many.
pub record IsBlock (count index : ℕ) (block : Bytes) : Type 0 where
  pub first_magic : word block 0 ≡ 0x0a324655
  pub second_magic : word block 4 ≡ 0x9e5d5157
  pub last_magic : word block 508 ≡ 0x0ab16f30
  pub has_family : word block 8 / 0x2000 % 2 ≡ 1
  pub family : word block 28 ≡ 0xe48bff56
  pub size : word block 16 ≡ 256
  pub number : word block 20 ≡ index % 2 ^ 32
  pub total : word block 24 ≡ count % 2 ^ 32
  pub in_flash : 0x10000000 ≤ word block 12
  pub aligned : word block 12 % 256 ≡ 0

is_block-IsBlock :
    (count index : ℕ) (block : Bytes)
    → is_block count index block ≡ true
    → IsBlock count index block
unfolding is_block
is_block-IsBlock count index block h =
    let (h9, aligned) = &&-eq-true _ (word block 12 % 256 == 0) h in
    let (h8, in_flash) = &&-eq-true _ (leb 0x10000000 (word block 12)) h9 in
    let (h7, total) = &&-eq-true _ (word block 24 == count % 2 ^ 32) h8 in
    let (h6, number) = &&-eq-true _ (word block 20 == index % 2 ^ 32) h7 in
    let (h5, size) = &&-eq-true _ (word block 16 == 256) h6 in
    let (h4, family) = &&-eq-true _ (word block 28 == 0xe48bff56) h5 in
    let (h3, has_family) = &&-eq-true _ (word block 8 / 0x2000 % 2 == 1) h4 in
    let (h2, last_magic) = &&-eq-true _ (word block 508 == 0x0ab16f30) h3 in
    let (first_magic, second_magic) =
      &&-eq-true (word block 0 == 0x0a324655) (word block 4 == 0x9e5d5157) h2 in
    record {
      first_magic = (==_iff (word block 0) 0x0a324655).0 first_magic;
      second_magic = (==_iff (word block 4) 0x9e5d5157).0 second_magic;
      last_magic = (==_iff (word block 508) 0x0ab16f30).0 last_magic;
      has_family = (==_iff (word block 8 / 0x2000 % 2) 1).0 has_family;
      family = (==_iff (word block 28) 0xe48bff56).0 family;
      size = (==_iff (word block 16) 256).0 size;
      number = (==_iff (word block 20) (index % 2 ^ 32)).0 number;
      total = (==_iff (word block 24) (count % 2 ^ 32)).0 total;
      in_flash = leb→le 0x10000000 (word block 12) in_flash;
      aligned = (==_iff (word block 12 % 256) 0).0 aligned;
    }

-- These blocks, from number `index` on, are valid ones of an image of `count` blocks that starts at
-- `first`; each is for the address that follows the bytes before it, and `bytes` are their payloads.
abbrev pub AreBlocks : ℕ → ℕ → ℕ → ℕ → List Bytes → Bytes → Type 0
AreBlocks count first index offset [] bytes = bytes ≡ []
AreBlocks count first index offset (block ∷ blocks) bytes =
    IsBlock count index block
    × (word block 12 ≡ next_address first offset)
    × (rest : Bytes) × (bytes ≡ payload block ++ rest)
    × AreBlocks count first (suc index) (offset + length (payload block)) blocks rest

blocks-AreBlocks :
    (blocks : List Bytes) (count index first : ℕ) (image : Bytes) (result : Uf2Image)
    → decode_blocks count index (some first) image blocks ≡ ok result
    → (result.address ≡ first)
      × (rest : Bytes) × (result.bytes ≡ image ++ rest)
      × AreBlocks count first index (length image) blocks rest
unfolding decode_blocks
blocks-AreBlocks [] count index first image result h = (cc (h), [], cc (h, append-nil image), refl)
blocks-AreBlocks (block ∷ blocks) count index first image result h =
    elim (Bool-cases (is_block count index block)) [
      | inr bad ↦ let h' = rw (bad, decode_blocks) at h in cc (h')
      | inl good ↦ elim (Bool-cases (word block 12 == next_address first (length image))) [
        | inr gap ↦ let h' = rw (good, gap, decode_blocks) at h in cc (h')
        | inl next ↦
            let (address, rest, bytes, later) =
              blocks-AreBlocks blocks count (suc index) first (image ++ payload block) result
                (rw (good, next, decode_blocks) at h) in
            (
              address,
              payload block ++ rest,
              bytes ∙ append_assoc image (payload block) rest,
              (
                is_block-IsBlock count index block good,
                (==_iff (word block 12) (next_address first (length image))).0 next,
                rest,
                refl,
                (rw (length-append image (payload block)) at later),
              ),
            )
      ]
    ]

first_address : (block : Bytes) → AreBytes block → word block 12 ≡ next_address (word block 12) 0
first_address block bytes =
    let fits = u32_from_le-lt (drop 12 block) (drop-AreBytes 12 block bytes) in omega arith

first-AreBlocks :
    (blocks : List Bytes) (count : ℕ) (image : Uf2Image)
    → AreBytes (flatten blocks)
    → decode_blocks count 0 none [] blocks ≡ ok image
    → AreBlocks count image.address 0 0 blocks image.bytes
unfolding decode_blocks
first-AreBlocks [] count image bytes h = cc (h)
first-AreBlocks (block ∷ blocks) count image bytes h = elim (Bool-cases (is_block count 0 block)) [
  | inr bad ↦ let h' = rw (bad, decode_blocks) at h in cc (h')
  | inl good ↦
      let (address, rest, all_bytes, later) =
        blocks-AreBlocks blocks count 1 (word block 12) (payload block) image
          (rw (good, decode_blocks) at h) in
      let start : 0 + length (payload block) ≡ length (payload block) = omega arith in
      let later' : AreBlocks count image.address 1 (0 + length (payload block)) blocks rest =
        rw (address, start) later in
      (
        is_block-IsBlock count 0 block good,
        first_address block (All-left (λ b. b < 256) block (flatten blocks) bytes)
            ∙ ap (λ a. next_address a 0) (sym address),
        rest,
        all_bytes,
        later',
      )
]

-- An image that is decoded from bytes is made of the payloads of all
-- blocks of the firmware in their order; each block has the magic numbers of UF2, the family of the
-- RP2040, 256 bytes for its flash, the number of blocks and its own number, and is for the address
-- that follows the bytes before it.
pub decode_uf2-AreBlocks :
    (firmware : Bytes) (image : Uf2Image)
    → AreBytes firmware
    → decode_uf2 firmware ≡ ok image
    → AreBlocks (length (chunks 512 firmware)) image.address 0 0 (chunks 512 firmware) image.bytes
unfolding decode_uf2
decode_uf2-AreBlocks firmware image bytes h =
    elim (Bool-cases (length firmware == 0 || not (length firmware % 512 == 0))) [
      | inl bad ↦ let h' = rw (bad, decode_uf2) at h in cc (h')
      | inr good ↦
          first-AreBlocks (chunks 512 firmware) (length (chunks 512 firmware)) image
            (rw (flatten-chunks 512 firmware (omega arith)) bytes) (rw (good, decode_uf2) at h)
    ]
