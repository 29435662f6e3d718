-- ===== src/Vendors/Beacon/Image/RoundTrip.antt =====
-- A payload with a DFU suffix, and back.
use aldis.Prelude.{
  ℕ, zero, suc, ◌+◌, ◌-◌, ◌/◌, ◌%◌, ◌<◌, ◌^◌, ◌≡◌, ◌≢◌, ltb, le→ltb, false, Bytes, [], ◌∷◌, ◌++◌,
  append_assoc, AreBytes, length, length-append, take, drop, bytes_eq, take-append, drop-append,
  bit_xor, refl, sym, ap, ◌∙◌, arith, ok, eq_self,
}
use aldis.Prelude.Bits.{bit_xor-lt}
use aldis.Prelude.Text.{is_empty}
use aldis.Prelude.Words.{u16_from_le-to_le, u32_to_le, u32_from_le-to_le}
use aldis.Eligibility.{Semver}
use aldis.Vendors.Beacon.{vendor_id, version_from_bcd}
use aldis.Vendors.Beacon.Image.{dfu_step, dfu_steps, crc_from, dfu_crc, suffix_of, parse_image}

-- A checksum fits 32 bits.
dfu_step-lt : (crc : ℕ) → crc < 2 ^ 32 → dfu_step crc < 2 ^ 32
dfu_step-lt crc h = ground (arith, bit_xor-lt 32 (crc / 2) 0xedb88320 (omega arith) (omega arith))

dfu_steps-lt : (n crc : ℕ) → crc < 2 ^ 32 → dfu_steps n crc < 2 ^ 32
dfu_steps-lt zero crc h = h
dfu_steps-lt (suc n) crc h = dfu_steps-lt n (dfu_step crc) (dfu_step-lt crc h)

crc_from-lt :
    (crc : ℕ) (bytes : Bytes) → crc < 2 ^ 32 → AreBytes bytes → crc_from crc bytes < 2 ^ 32
unfolding crc_from
crc_from-lt crc [] h k = h
crc_from-lt crc (byte ∷ bytes) h k =
    crc_from-lt (dfu_steps 8 (bit_xor crc byte)) bytes
      (dfu_steps-lt 8 (bit_xor crc byte) (bit_xor-lt 32 crc byte h (omega (arith, k.0)))) k.1

-- What a DFU suffix holds in front of its checksum, of `n` bytes in all.
abbrev pub suffix_head : ℕ → ℕ → ℕ → Bytes
suffix_head bcd product n =
    bcd % 256
    ∷ (bcd / 256 % 256)
    ∷ product % 256
    ∷ (product / 256 % 256)
    ∷ vendor_id % 256
    ∷ (vendor_id / 256 % 256)
    ∷ 0
    ∷ 1
    ∷ b'U'
    ∷ b'F'
    ∷ b'D'
    ∷ n
    ∷ []

-- The file in front of its checksum: `extra` are bytes by which the suffix is longer than usual.
abbrev pub dfu_body : Bytes → Bytes → ℕ → ℕ → Bytes
dfu_body payload extra bcd product =
    payload ++ (extra ++ suffix_head bcd product (16 + length extra))

-- A Beacon firmware file.
abbrev pub dfu_file : Bytes → Bytes → ℕ → ℕ → Bytes
dfu_file payload extra bcd product =
    dfu_body payload extra bcd product ++ u32_to_le (dfu_crc (dfu_body payload extra bcd product))

-- The seams of a file.
dfu_file-split :
    (payload extra : Bytes) (bcd product : ℕ)
    → let tail =
        suffix_head bcd product (16 + length extra)
        ++ u32_to_le (dfu_crc (dfu_body payload extra bcd product)) in
      let file = dfu_file payload extra bcd product in
      (file ≡ (payload ++ extra) ++ tail) × (file ≡ payload ++ (extra ++ tail))
dfu_file-split payload extra bcd product =
    let head = suffix_head bcd product (16 + length extra) in
    let sum = u32_to_le (dfu_crc (dfu_body payload extra bcd product)) in
    let e =
      append_assoc payload (extra ++ head) sum
      ∙ ap (λ t. payload ++ t) (append_assoc extra head sum) in
    (e ∙ sym (append_assoc payload extra (head ++ sum)), e)

not_empty : (payload : Bytes) → payload ≢ [] → is_empty payload ≡ false
not_empty [] h = absurd (h refl)
not_empty (x ∷ payload) h = refl

module _ {V : Type 0} (semver : Semver V) where
  -- A file whose parts are known passes the checks.
  parsed :
      (file body payload : Bytes) (bcd product n : ℕ)
      → bcd < 2 ^ 16
      → product < 2 ^ 16
      → ltb (length file) 16 ≡ false
      → suffix_of file ≡ suffix_head bcd product n ++ u32_to_le (dfu_crc body)
      → ltb n 16 ≡ false
      → ltb (length file) n ≡ false
      → take (length file - 4) file ≡ body
      → dfu_crc body < 2 ^ 32
      → take (length file - n) file ≡ payload
      → is_empty payload ≡ false
      → parse_image semver file
        ≡ ok (record {
          payload = payload;
          vendor = vendor_id;
          product = product;
          version = version_from_bcd semver bcd;
        })
  unfolding parse_image bytes_eq
  parsed file body payload bcd product n hb hp h1 h2 h3 h4 h5 h6 h7 h8 =
      rw
        (
          h1,
          h2,
          h3,
          h4,
          h5,
          h7,
          h8,
          u32_from_le-to_le (dfu_crc body) h6,
          u16_from_le-to_le bcd hb,
          u16_from_le-to_le product hp,
          eq_self (dfu_crc body),
        )
        refl

  -- A payload that is not empty, stored as a DFU file for Beacon's vendor, with a suffix of any
  -- length that a byte can name, is read back with its product and version.
  pub parse_image-dfu_file :
      (payload extra : Bytes) (bcd product : ℕ)
      → payload ≢ []
      → AreBytes (dfu_body payload extra bcd product)
      → bcd < 2 ^ 16
      → product < 2 ^ 16
      → parse_image semver (dfu_file payload extra bcd product)
        ≡ ok (record {
          payload = payload;
          vendor = vendor_id;
          product = product;
          version = version_from_bcd semver bcd;
        })
  unfolding dfu_crc
  parse_image-dfu_file payload extra bcd product h bytes k l =
      let file = dfu_file payload extra bcd product in
      let head = suffix_head bcd product (16 + length extra) in
      let tail = head ++ u32_to_le (dfu_crc (dfu_body payload extra bcd product)) in
      let (e1, e2) = dfu_file-split payload extra bcd product in
      let size : length file ≡ length payload + (length extra + 16) =
        ap length e2
        ∙ (length-append payload (extra ++ tail)
            ∙ ap (λ n. length payload + n) (length-append extra tail)) in
      let whole : length file ≡ length (dfu_body payload extra bcd product) + 4 =
        length-append (dfu_body payload extra bcd product)
          (u32_to_le (dfu_crc (dfu_body payload extra bcd product))) in
      parsed file (dfu_body payload extra bcd product) payload bcd product (16 + length extra) k l
        (le→ltb (length file) 16 (omega (arith, size)))
        (ap (drop (length file - 16)) e1
          ∙ drop-append (length file - 16) 0 (payload ++ extra) tail
              (omega (arith, size, length-append payload extra)))
        (le→ltb (16 + length extra) 16 (omega arith))
        (le→ltb (length file) (16 + length extra) (omega (arith, size)))
        (take-append (length file - 4) (dfu_body payload extra bcd product)
          (u32_to_le (dfu_crc (dfu_body payload extra bcd product))) (omega (arith, whole)))
        (crc_from-lt 0xffffffff (dfu_body payload extra bcd product) (omega arith) bytes)
        (ap (take (length file - (16 + length extra))) e2
          ∙ take-append (length file - (16 + length extra)) payload (extra ++ tail)
              (omega (arith, size)))
        (not_empty payload h)
