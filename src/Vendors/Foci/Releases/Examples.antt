-- ===== src/Vendors/Foci/Releases/Examples.antt =====
-- A release that is looked up, and a digest of one.
use aldis.Prelude.{
  ℕ, ◌+◌, ◌*◌, ◌^◌, ◌≡◌, refl, List, [], ◌∷◌, ◌++◌, none, some, ok, err, Exec, if◌then◌else◌, ◌==◌,
  Bytes, length, replicate, bytes_eq,
}
use aldis.Prelude.Iter.{find, filter_map}
use aldis.Prelude.Text.{Text, codes, lines, split, split_once, strip_suffix}
use aldis.Vendors.Foci.{Release}
use aldis.Vendors.Foci.Releases.{
  get, download_verified, verify_firmware, verify_checksum, expected_checksum, decode_hex,
  decode_pairs, without_mark,
}
use aldis.Vendors.Foci.Releases.Reuse.{run, noted, IsSpaced, IsAsked, last_found, get-IsSpaced}
use aldis.Vendors.Foci.Releases.Verified.{download_verified-exact}

abbrev release : Release ℕ
release = record { tag = codes "v0.4.1"; version = 41 }

-- GitHub fails at first, and then answers.
abbrev github : Exec ℕ ℕ (Release ℕ)
github n = (if n == 0 then err 503 else ok release, 1)

abbrev minute : ℕ
minute = 60 * 10 ^ 9

abbrev asked : List ℕ
asked = minute ∷ 2 * minute ∷ 7 * minute ∷ 60 * minute ∷ []

-- Of five questions, the first, the third and the last are passed on.
two_lookups : (run github asked none ([], 0)).1.0 ≡ (7 * minute, some release) ∷ (minute, none) ∷ []
unfolding get
two_lookups = refl

get-IsSpaced_example :
    let (cache, (log, s')) = run github asked none ([], 0) in
    let (answer, (cache', (log', s''))) =
      get (67 * minute) (noted (67 * minute) github) cache (log, s') in
    IsSpaced log' × (answer ≡ last_found log') × IsAsked (67 * minute) log log'
get-IsSpaced_example = get-IsSpaced github asked (67 * minute) 0

-- A hash of 32 bytes, which tells these few images apart.
abbrev sha256 : Bytes → Bytes
sha256 bs = length bs ∷ replicate 31 0

abbrev asset : Text
asset = codes "fw.bin"

abbrev published : Text
published =
    codes "0200000000000000000000000000000000000000000000000000000000000000 *other.bin\n"
    ++ codes "0300000000000000000000000000000000000000000000000000000000000000  fw.bin\n"

abbrev digests : Text → Exec ℕ ℕ Text
digests name n = (ok published, n + 1)

abbrev images : Text → Exec ℕ ℕ Bytes
images name n = (ok (7 ∷ 8 ∷ 9 ∷ []), n + 1)

verified : download_verified sha256 asset digests images 0 ≡ (ok (7 ∷ 8 ∷ 9 ∷ []), 2)
unfolding download_verified verify_firmware verify_checksum expected_checksum decode_hex
    decode_pairs without_mark find filter_map lines split split_once strip_suffix bytes_eq
verified = refl

download_verified-exact_example :
    (checksum : Text) × (t : ℕ) × ((digests (asset ++ codes ".sha256") 0 ≡ (ok checksum, t))
      × ((images asset t ≡ (ok (7 ∷ 8 ∷ 9 ∷ []), 2))
          × (expected_checksum checksum asset ≡ ok (sha256 (7 ∷ 8 ∷ 9 ∷ [])))))
download_verified-exact_example =
    download_verified-exact sha256 asset digests images 0 2 (7 ∷ 8 ∷ 9 ∷ []) verified
