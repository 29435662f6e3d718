-- ===== src/Vendors/Cartographer/Examples.antt =====
-- A probe on USB and a clone that holds one image for it.
use Prim.Native.Nat.{compare}
use aldis.Prelude.{
  ℕ, ◌+◌, ◌==◌, false, ◌≡◌, refl, [], ◌∷◌, ◌++◌, Bytes, bytes_eq, Option, none, some, ok,
  if◌then◌else◌, get_or,
}
use aldis.Prelude.Text.{
  Text, codes, lines, split, trim, trim_start, trim_end, strip_suffix, one_of, any, all,
}
use aldis.Prelude.Iter.{keep, filter_map, every}
use aldis.Prelude.Strings.{split_whitespace, split_at, eq_ignore_ascii_case}
use aldis.Fleet.{serial}
use aldis.Prepare.{PathBuf}
use aldis.Eligibility.{Semver}
use aldis.Flash.Stm32.{plausible_application_starts, words_of}
use aldis.Vendors.Cartographer.{
  Firmware, DictionaryIdentity, v4, full, image_identity, names_itself_cartographer, check_image,
  parse_version, build_from_version,
}
use aldis.Vendors.Cartographer.Manifest.{
  ManifestEntry, parse_manifest, without_returns, position, columns_of, parse_row,
}
use aldis.Vendors.Cartographer.Select.{
  CartographerTarget, image_path, agrees, candidate, needed, choose, candidates_for, select_target,
}
use aldis.Vendors.Cartographer.Select.Suits.{IsListed, select_target-IsListed}

-- Versions as sums of their characters.
abbrev total : Text → ℕ
total [] = 0
total (x ∷ s) = x + total s

abbrev sums : Semver ℕ
sums = record {
  parse = λ s. some (total s);
  display = λ v. [];
  version = λ major minor patch. major + minor + patch;
  with_dev = λ v n. none;
  cmp = compare;
}

-- A vector table for 0x08002000, and a zlib header.
abbrev image : Bytes
image =
    0x00 ∷ 0x10 ∷ 0x00 ∷ 0x20 ∷ 0x09 ∷ 0x20 ∷ 0x00 ∷ 0x08 ∷ 0x78 ∷ 0x01 ∷ 1 ∷ 2 ∷ 3 ∷ 4 ∷ 5 ∷ 6 ∷ []

abbrev dictionary : Bytes → Option DictionaryIdentity
dictionary bytes =
    if get_or bytes 0 0 == 0x78
    then some (record {
      version = some (codes "CARTOGRAPHER V4 6.1.0");
      app = none;
      mcu = some (codes "stm32g431xx");
      canbus_frequency_hz = none;
    })
    else none

abbrev listed : Text
listed =
    codes
      "filepath,firmware_type,protocol,process,probe_version,firmware_version,can_speed,is_lite,min_plugin_version\r\n"
    ++ (codes "v4/usb.bin,Cartographer,USB,Update,v4,6.1.0,,no,1.5.0\r\n"
        ++ codes "v4/all.bin,Combined,USB,Install,v4,6.1.0,,no,\n")

abbrev entry : ManifestEntry ℕ
entry = record {
  path = codes "v4/usb.bin";
  probe_version = codes "v4";
  protocol = codes "USB";
  can_speed = none;
  lite = false;
  version = total (codes "6.1.0");
  min_plugin = some (total (codes "1.5.0"));
}

listed_entries : parse_manifest sums listed ≡ ok (entry ∷ [])
unfolding parse_manifest lines without_returns columns_of parse_row filter_map keep position split
    trim trim_start trim_end strip_suffix one_of bytes_eq
listed_entries = refl

abbrev running : Firmware ℕ
running = record {
  generation = v4;
  build = full;
  version = total (codes "6.0.0");
  mcu = codes "stm32g431xx";
  can_frequency = none;
}

abbrev clone : PathBuf
clone = codes "clone" ∷ []

abbrev read : PathBuf → Option Bytes
read path = some image

abbrev target : CartographerTarget ℕ
target = record {
  path = codes "clone" ∷ codes "firmware" ∷ codes "v4" ∷ codes "usb.bin" ∷ [];
  version = total (codes "6.1.0");
  reported = codes "CARTOGRAPHER V4 6.1.0";
  held_back = none;
}

selected :
    select_target sums dictionary read clone
      (entry ∷ [])
      running
      (some (serial (codes "tty")))
      (some (total (codes "1.5.1")))
    ≡ ok target
unfolding select_target choose candidates_for candidate image_path agrees check_image needed
    image_identity names_itself_cartographer parse_version build_from_version
    plausible_application_starts words_of keep filter_map every any all one_of split
    split_whitespace split_at eq_ignore_ascii_case bytes_eq trim
selected = refl

select_target-IsListed_example :
    IsListed sums dictionary read clone running
      (some (total (codes "1.5.1")))
      (target).path
      (target).reported
      (target).version
select_target-IsListed_example =
    select_target-IsListed sums dictionary read clone (entry ∷ []) running
      (some (serial (codes "tty"))) (some (total (codes "1.5.1"))) target selected
