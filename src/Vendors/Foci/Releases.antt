-- ===== src/Vendors/Foci/Releases.antt =====
-- Where FOCI firmware comes from (src/foci.rs, and the digests of src/self_update.rs): an image is
-- used only if it matches the digest published beside it, and a release that was found is reused.
-- GitHub, SHA-256 and the clock are parameters; an instant and a duration are nanoseconds.
pub mod Reuse
pub mod Verified
mod Examples
use aldis.Prelude.{
  ℕ, ◌+◌, ◌-◌, ◌*◌, ◌^◌, ltb, leb, ◌==◌, ◌&&◌, ◌||◌, Bool, true, false, if◌then◌else◌, List, [],
  ◌∷◌, ◌++◌, Bytes, length, bytes_eq, Option, none, some, Result, ok, err, map_err, Exec, ◌>>=◌,
  ◌>>◌, pure, lift,
}
use aldis.Prelude.Text.{Text, codes, lines, split_once, any, is_digit}
use aldis.Prelude.Iter.{find, filter_map}
use aldis.Eligibility.{Semver, chain}
use aldis.Fleet.{Mcu}
use aldis.Vendors.Foci.{Release, from_tag, is_foci}

-- of src/self_update.rs; the digests that a mismatch shows are left out
pub data ChecksumError : Type 0 where
  checksum_missing : Text → ChecksumError
  checksum_malformed : Text → ChecksumError
  checksum_differs : Text → ChecksumError

pub data ReleaseError (GE : Type 0) : Type 0 where
  github : GE → ReleaseError GE
  invalid_tag : Text → ReleaseError GE
  checksum_invalid : Text → ReleaseError GE
  checksum_mismatch : Text → ReleaseError GE

abbrev hex_value : ℕ → Option ℕ
hex_value c =
    if is_digit c
    then some (c - b'0')
    else if leb b'a' c && leb c b'f'
    then some (c - 87)
    else if leb b'A' c && leb c b'F'
    then some (c - 55)
    else none

-- `u8::from_str_radix` of two characters, which may be a sign `+` and a digit
abbrev byte_of : ℕ → ℕ → Option ℕ
byte_of a b =
    if a == b'+'
    then hex_value b
    else chain (hex_value a) (λ high. chain (hex_value b) (λ low. some (high * 16 + low)))

unfoldable pub decode_pairs : Text → Option Bytes
decode_pairs [] = some []
decode_pairs (a ∷ []) = none
decode_pairs (a ∷ b ∷ rest) =
    chain (byte_of a b) (λ byte. chain (decode_pairs rest) (λ bytes. some (byte ∷ bytes)))

unfoldable pub decode_hex : Text → Option Bytes
unfolding decode_pairs
decode_hex hex = if length hex == 64 then decode_pairs hex else none

-- `name.trim_start_matches([' ', '*'])`
unfoldable pub without_mark : Text → Text
without_mark [] = []
without_mark (x ∷ s) = let rest = without_mark s in if x == b' ' || x == b'*' then rest else x ∷ s

unfoldable pub expected_checksum : Text → Text → Result ChecksumError Bytes
unfolding without_mark decode_hex find filter_map
expected_checksum manifest file_name =
    elim (find (λ (entry : Text × Text). bytes_eq (without_mark entry.1) file_name)
      (filter_map (split_once b' ') (lines manifest))) [
        | none ↦ err (checksum_missing file_name)
        | some (digest, name) ↦ elim (decode_hex digest) [
          | some bytes ↦ ok bytes
          | none ↦ err (checksum_malformed file_name)
        ]
      ]

module _ (sha256 : Bytes → Bytes) where
  unfoldable pub verify_checksum : Text → Bytes → Bytes → Result ChecksumError (Unit {0})
  verify_checksum file_name archive expected =
      if bytes_eq (sha256 archive) expected then ok tt else err (checksum_differs file_name)

  module _ {GE : Type 0} where
    abbrev digest_matches :
        Text → Bytes → Result ChecksumError Bytes → Result (ReleaseError GE) (Unit {0})
    digest_matches asset firmware (err e) = err (checksum_invalid asset)
    digest_matches asset firmware (ok expected) =
        map_err (λ e. checksum_mismatch asset) (verify_checksum asset firmware expected)

    unfoldable pub verify_firmware : Text → Text → Bytes → Result (ReleaseError GE) (Unit {0})
    unfolding expected_checksum verify_checksum
    verify_firmware asset checksum_file firmware =
        digest_matches asset firmware (expected_checksum checksum_file asset)

    abbrev from_github : {S A : Type 0} → Exec S GE A → Exec S (ReleaseError GE) A
    from_github m s = let (r, s') = m s in (map_err github r, s')

    unfoldable pub download_verified :
        {S : Type 0}
        → Text
        → (Text → Exec S GE Text)
        → (Text → Exec S GE Bytes)
        → Exec S (ReleaseError GE) Bytes
    unfolding verify_firmware
    download_verified asset text bytes = do
      checksum ← from_github (text (asset ++ codes ".sha256"))
      firmware ← from_github (bytes asset)
      lift (verify_firmware asset checksum firmware)
      pure firmware

module _ {V : Type 0} where
  -- `ReleasePort` on GitHub
  unfoldable pub latest_release :
      {S GE : Type 0} → Semver V → Exec S GE Text → Exec S (ReleaseError GE) (Release V)
  latest_release semver latest_tag s =
      let (r, s') = latest_tag s in
      elim r [
        | err e ↦ (err (github e), s')
        | ok tag ↦ elim (from_tag semver tag) [
          | some release ↦ (ok release, s')
          | none ↦ (err (invalid_tag tag), s')
        ]
      ]

  abbrev found : {E : Type 0} → Result E (Release V) → Result E (Option (Release V))
  found (ok release) = ok (some release)
  found (err e) = err e

  unfoldable pub release_for :
      {S E : Type 0} → List Mcu → Exec S E (Release V) → Exec S E (Option (Release V))
  unfolding is_foci any
  release_for mcus latest s =
      if any is_foci mcus then (let (r, s') = latest s in (found r, s')) else (ok none, s)

abbrev pub release_reuse : ℕ
release_reuse = 60 * 60 * 10 ^ 9

abbrev pub lookup_retry : ℕ
lookup_retry = 5 * 60 * 10 ^ 9

pub record CachedLookup (V : Type 0) : Type 0 where
  pub at : ℕ
  pub release : Option (Release V)
  pub failed : Bool

module _ {V : Type 0} where
  abbrev reuse_of : CachedLookup V → ℕ
  reuse_of last = if last.failed then lookup_retry else release_reuse

  -- the answer is not due for renewal
  abbrev pub is_fresh : ℕ → CachedLookup V → Bool
  is_fresh now last = ltb (now - last.at) (reuse_of last)

  abbrev last_release : Option (CachedLookup V) → Option (Release V)
  last_release none = none
  last_release (some last) = last.release

  -- what is kept of a lookup
  abbrev pub kept :
      {E : Type 0} → ℕ → Option (CachedLookup V) → Result E (Release V) → CachedLookup V
  kept now old (ok release) = record { at = now; release = some release; failed = false }
  kept now old (err e) = record { at = now; release = last_release old; failed = true }

  module _ {S E : Type 0} where
    abbrev renew :
        ℕ
        → Exec S E (Release V)
        → Option (CachedLookup V)
        → S
        → Option (Release V) × (Option (CachedLookup V) × S)
    renew now lookup old s =
        let (r, s') = lookup s in ((kept now old r).release, (some (kept now old r), s'))

    -- `ReleaseCache::get`, on the cache's last lookup
    unfoldable pub get :
        ℕ
        → Exec S E (Release V)
        → Option (CachedLookup V)
        → S
        → Option (Release V) × (Option (CachedLookup V) × S)
    get now lookup none s = renew now lookup none s
    get now lookup (some last) s =
        if is_fresh now last then (last.release, (some last, s)) else renew now lookup (some last) s
