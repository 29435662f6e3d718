-- ===== src/Katapult/Session/Upload.antt =====
-- The two loops of `upload`, and the whole of it, against a device that keeps to the protocol.
use aldis.Prelude.{
  drop-AreBytes, ℕ, zero, suc, ◌+◌, ◌*◌, ◌%◌, ◌≤◌, ◌<◌, List, [], ◌∷◌, ◌++◌, ◌≡◌, refl, ap, sym,
  ◌∙◌, arith, Bytes, AreBytes, All, length, replicate, flatten, All-append, All-left, All-right, ok,
  Exec, append_assoc, append-nil, bytes_eq_iff, some,
}
use aldis.Prelude.Words.{u32_to_le}
use aldis.Prelude.Chunks.{chunks, flatten-chunks, chunks-length}
use aldis.Katapult.Frame.{send_eof}
use aldis.Katapult.Session.{
  KatapultTarget, block_address, padded_block, write_blocks, read_blocks, upload, div_ceil,
  u32_limit,
}
use aldis.Katapult.Session.Device.{
  Device, IsBlock, write_block-stored, read_block-memory, run_command-answer, response_u32-word,
  encoded, reply-Fits, reply_of,
}
use aldis.Katapult.Session.Padding.{padded_image, length-padded_block, length-chunks}

-- Where block `index` starts.
abbrev pub start_of : KatapultTarget → ℕ → ℕ
start_of target index = target.application_start + index * target.block_size

block_address-start :
    (target : KatapultTarget) (index : ℕ)
    → start_of target index < u32_limit
    → block_address target index ≡ some (start_of target index)
unfolding block_address
block_address-start target index h = ground arith

-- A geometry that Katapult may have.
pub record IsGeometry (target : KatapultTarget) : Type 0 where
  pub some_bytes : 0 < target.block_size
  pub whole_words : target.block_size % 4 ≡ 0
  pub at_most : target.block_size ≤ 512

-- The chunks of a firmware: bytes, none longer than a block.
pub record AreChunks (block_size : ℕ) (cs : List Bytes) : Type 0 where
  pub bytes : AreBytes (flatten cs)
  pub sizes : All (λ c. length c ≤ block_size) cs

AreChunks-head :
    {block_size : ℕ} (c : Bytes) (cs : List Bytes) → AreChunks block_size (c ∷ cs) → AreBytes c
AreChunks-head c cs a = All-left (λ b. b < 256) c (flatten cs) a.bytes

AreChunks-tail :
    {block_size : ℕ} (c : Bytes) (cs : List Bytes)
    → AreChunks block_size (c ∷ cs)
    → AreChunks block_size cs
AreChunks-tail c cs a = record {
  bytes = All-right (λ b. b < 256) c (flatten cs) a.bytes;
  sizes = a.sizes.1;
}

replicate-AreBytes : (n : ℕ) → AreBytes (replicate n 0xff)
replicate-AreBytes zero = tt
replicate-AreBytes (suc n) = (omega arith, replicate-AreBytes n)

padded-IsBlock :
    (target : KatapultTarget) (c : Bytes)
    → IsGeometry target
    → AreBytes c
    → length c ≤ target.block_size
    → IsBlock target.block_size (padded_block c target.block_size)
unfolding padded_block
padded-IsBlock target c g bytes h = record {
  bytes =
      All-append (λ b. b < 256) c _ bytes
        (drop-AreBytes (length c) _ (replicate-AreBytes target.block_size));
  size = length-padded_block c target.block_size h;
  words = g.whole_words;
  short = g.at_most;
}

module _ {S E : Type 0} (exchange : Bytes → Exec S E Bytes) (device : Device exchange)
    (target : KatapultTarget) (g : IsGeometry target) where
  open device use {memory, stored}

  -- From block `index` on, the memory holds these chunks, each filled up to a block.
  abbrev pub Holds : S → ℕ → List Bytes → Type 0
  Holds u index [] = Unit
  Holds u index (c ∷ cs) =
      (memory u (start_of target index) ≡ padded_block c target.block_size) × Holds u (suc index) cs

  -- The state after the blocks have been stored.
  after_writes : S → ℕ → List Bytes → S
  after_writes s index [] = s
  after_writes s index (c ∷ cs) =
      after_writes (stored s (start_of target index) (padded_block c target.block_size)) (suc index)
        cs

  -- Nothing below the first block is changed.
  after_writes-below :
      (cs : List Bytes) (s : S) (index address : ℕ)
      → address < start_of target index
      → memory (after_writes s index cs) address ≡ memory s address
  unfolding after_writes
  after_writes-below [] s index address h = refl
  after_writes-below (c ∷ cs) s index address h =
      after_writes-below cs _ (suc index) address (omega arith)
      ∙ device.memory-stored_ne s (start_of target index) address (padded_block c target.block_size)
          (omega arith)

  after_writes-Holds :
      (cs : List Bytes) (s : S) (index : ℕ) → Holds (after_writes s index cs) index cs
  unfolding after_writes
  after_writes-Holds [] s index = tt
  after_writes-Holds (c ∷ cs) s index = (
    after_writes-below cs _ (suc index) (start_of target index) (omega (arith, g.some_bytes))
        ∙ device.memory-stored s (start_of target index) (padded_block c target.block_size),
    after_writes-Holds cs _ (suc index),
  )

  write_blocks-after :
      (cs : List Bytes) (s : S) (index : ℕ) (written : Bytes)
      → AreChunks target.block_size cs
      → start_of target (index + length cs) ≤ u32_limit
      → write_blocks exchange target index cs written s
        ≡ (ok (written ++ padded_image target.block_size cs), after_writes s index cs)
  unfolding write_blocks after_writes
  write_blocks-after [] s index written a h = ap (λ w. (ok w, s)) (sym (append-nil written))
  write_blocks-after (c ∷ cs) s index written a h =
      let block = padded_block c target.block_size in
      let ih =
        write_blocks-after cs (stored s (start_of target index) block) (suc index)
          (written ++ block) (AreChunks-tail c cs a) (omega (arith, h)) in
      let fits : start_of target index < u32_limit = omega (arith, h, g.some_bytes) in
      rw
        (
          block_address-start target index fits,
          write_block-stored exchange device s (start_of target index) target.block_size block fits
              (padded-IsBlock target c g (AreChunks-head c cs a) a.sizes.0),
          ih,
        )
        (ap (λ w. (ok w, after_writes s index (c ∷ cs)))
          (append_assoc written block (padded_image target.block_size cs)))

  read_blocks-Holds :
      (cs : List Bytes) (u : S) (index : ℕ) (read : Bytes)
      → Holds u index cs
      → AreChunks target.block_size cs
      → start_of target (index + length cs) ≤ u32_limit
      → read_blocks exchange target index (length cs) read u
        ≡ (ok (read ++ padded_image target.block_size cs), u)
  unfolding read_blocks
  read_blocks-Holds [] u index read holds a h = ap (λ w. (ok w, u)) (sym (append-nil read))
  read_blocks-Holds (c ∷ cs) u index read holds a h =
      let block = padded_block c target.block_size in
      let fits : start_of target index < u32_limit = omega (arith, h, g.some_bytes) in
      let is_block : IsBlock target.block_size (memory u (start_of target index)) =
        rw (holds.0) (padded-IsBlock target c g (AreChunks-head c cs a) a.sizes.0) in
      let ih =
        read_blocks-Holds cs u (suc index) (read ++ block) holds.1 (AreChunks-tail c cs a)
          (omega (arith, h)) in
      rw
        (
          block_address-start target index fits,
          read_block-memory exchange device u (start_of target index) target.block_size fits
              is_block,
          holds.0,
          ih,
        )
        (ap (λ w. (ok w, u)) (append_assoc read block (padded_image target.block_size cs)))

  closed-Holds :
      (cs : List Bytes) (u : S) (index : ℕ) → Holds u index cs → Holds (device.closed u) index cs
  closed-Holds [] u index h = tt
  closed-Holds (c ∷ cs) u index h =
      (device.memory-closed u (start_of target index) ∙ h.0, closed-Holds cs u (suc index) h.1)

  -- On a device that keeps to the protocol and whose blocks are whole words, at least one and at
  -- most 512 bytes, an upload of bytes that fits 32-bit addresses succeeds. It
  -- reports the pages of the device and the size of all blocks, and afterwards the device holds
  -- every chunk of the firmware, filled up with 0xff to a block, at its address.
  pub upload-Holds :
      (sha1 : Bytes → Bytes) (firmware : Bytes) (s : S)
      → AreBytes firmware
      → start_of target (div_ceil (length firmware) target.block_size) ≤ u32_limit
      → (v : S) × (u : S) × (upload exchange sha1 firmware target s ≡ (
        ok (record {
          pages_written = device.pages v;
          padded_bytes = div_ceil (length firmware) target.block_size * target.block_size;
        }),
        u,
      ))
        × Holds u 0 (chunks target.block_size firmware)
  unfolding upload
  upload-Holds sha1 firmware s bytes h =
      let cs = chunks target.block_size firmware in
      let image = padded_image target.block_size cs in
      let v = after_writes s 0 cs in
      let u = device.closed v in
      let a : AreChunks target.block_size cs = record {
        bytes = rw (flatten-chunks target.block_size firmware g.some_bytes) bytes;
        sizes = chunks-length target.block_size firmware;
      } in
      let count : length cs ≡ div_ceil (length firmware) target.block_size =
        length-chunks target.block_size firmware g.some_bytes in
      let holds : Holds u 0 cs = closed-Holds cs v 0 (after_writes-Holds cs s 0) in
      let all : start_of target (length cs) ≤ u32_limit = rw count h in
      let fits : start_of target (0 + length cs) ≤ u32_limit = omega arith in
      let (request, e) = encoded send_eof [] refl (omega arith) in
      let answer =
        run_command-answer exchange send_eof [] request v u
          (reply_of send_eof (u32_to_le (device.pages v) ++ [])) e (device.on_eof v request e) refl
          (reply-Fits exchange device send_eof (device.pages v) [] tt refl (omega arith)) in
      (
        v,
        u,
        rw (
          ← count,
          write_blocks-after cs s 0 [] a fits,
          answer,
          response_u32-word {E = E} send_eof (device.pages v) [] (device.pages_word v),
          read_blocks-Holds cs u 0 [] holds a fits,
          (bytes_eq_iff (sha1 image) (sha1 image)).1 refl,
        ),
        holds,
      )
