-- ===== src/Prebuilt/Requests.antt =====
-- The request to flash prebuilt firmware (src/prebuilt.rs): the image is fetched or read and checked
-- once more, or the file that the user names is. The reasons of a failure are constructors in place
-- of texts. Downloading, the files and reporting progress are parameters; keeping a copy is done
-- as well as it goes and fails nothing.
pub mod Checked
use aldis.Prelude.{
  ℕ, not, Bool, true, false, if◌then◌else◌, List, [], ◌∷◌, ◌++◌, Bytes, bytes_eq, Option, none,
  some, Result, ok, err, map_err, Exec, ◌>>=◌, ◌>>◌, pure, raise, lift,
}
use aldis.Prelude.Text.{Text}
use aldis.Fleet.{Mcu}
use aldis.Prepare.{PathBuf, Vendor, FlashRequest, katapult_request, beacon_request}
use aldis.Coordinator.Types.{
  UpdateProgress, downloading_firmware, firmware_downloaded, reading_firmware, firmware_read,
}
use aldis.Eligibility.{Semver}
use aldis.Vendors.Foci
use aldis.Vendors.Foci.{Release, is_foci, from_mcu, application_start, asset_name}
use aldis.Vendors.Beacon.{names_itself_beacon}
use aldis.Vendors.Beacon.Image.{FirmwareImage, ImageError, parse_image}
use aldis.Vendors.Beacon.Targets
use aldis.Vendors.Beacon.Targets.{BeaconTarget, beacon_target, read_image}
use aldis.Vendors.Cartographer
use aldis.Vendors.Cartographer.{
  ImageIdentity, DictionaryIdentity, Mismatch, cartographer_start, check_image,
}
use aldis.Vendors.Cartographer.Select.{CartographerTarget, cartographer_target, same_version}
use aldis.Prebuilt.{
  Running, runs_foci, runs_beacon, runs_cartographer, Unsupported, Targets, identify,
}

pub data PrebuiltLinks : Type 0 where
  usb_only usb_or_can : PrebuiltLinks

-- Why there is no image to flash.
pub data NoImage (DE : Type 0) : Type 0 where
  no_release no_beacon_image no_cartographer_image : NoImage DE
  not_downloaded : DE → NoImage DE
  beacon_unavailable : Targets.Unavailable → NoImage DE
  beacon_changed cartographer_changed : PathBuf → NoImage DE
  unreadable : PathBuf → Text → NoImage DE
  refused : PathBuf → Mismatch → NoImage DE
  unsupported : Unsupported → NoImage DE

pub data ExplicitError : Type 0 where
  not_beacon_image : ImageError → ExplicitError
  cartographer_file : Mismatch → ExplicitError
  cartographer_unmatched : Cartographer.Unsupported → ExplicitError
  unknown_foci_board : Text → ExplicitError

-- What preparing calls.
pub record Sources (S V DE : Type 0) : Type 0 where
  pub download_firmware : Release V → Text → Exec S DE Bytes
  pub read : PathBuf → Exec S Text Bytes
  -- keeping a copy, which may fail unnoticed
  pub keep_copy : PathBuf → Bytes → S → S

-- `with_file_name`
unfoldable pub with_file_name : PathBuf → Text → PathBuf
with_file_name [] name = name ∷ []
with_file_name (x ∷ []) name = name ∷ []
with_file_name (x ∷ y ∷ path) name = x ∷ with_file_name (y ∷ path) name

abbrev pub file_name : PathBuf → Option Text
file_name [] = none
file_name (x ∷ []) = some x
file_name (x ∷ y ∷ path) = file_name (y ∷ path)

module _ {S V DE : Type 0} (semver : Semver V) (dictionary : Bytes → Option DictionaryIdentity)
    (sources : Sources S V DE) (progress : UpdateProgress → S → S) (artifact_path : PathBuf) where
  abbrev report : UpdateProgress → Exec S (NoImage DE) (Unit {0})
  report stage s = (ok tt, progress stage s)

  abbrev wrapped : {E A : Type 0} → (E → NoImage DE) → Exec S E A → Exec S (NoImage DE) A
  wrapped wrap m s = let (r, s') = m s in (map_err wrap r, s')

  abbrev keep_as : Option Text → Bytes → Exec S (NoImage DE) (Unit {0})
  keep_as none bytes s = (ok tt, s)
  keep_as (some name) bytes s =
      (ok tt, sources.keep_copy (with_file_name artifact_path name) bytes s)

  unfoldable pub download_foci_firmware :
      Foci.Firmware V → Option (Release V) → Exec S (NoImage DE) Bytes
  unfolding asset_name with_file_name
  download_foci_firmware firmware none = raise no_release
  download_foci_firmware firmware (some release) = do
    let asset = asset_name semver release firmware.board firmware.flavor
    report downloading_firmware
    image ← wrapped not_downloaded (sources.download_firmware release asset)
    report firmware_downloaded
    keep_as (some asset) image
    pure image

  -- `beacon::read_image`, by a read at this time
  abbrev read_beacon : PathBuf → Exec S (NoImage DE) (FirmwareImage V)
  read_beacon path s =
      let (bytes, s') = sources.read path s in
      (map_err beacon_unavailable (read_image semver (λ p. bytes) path), s')

  abbrev file_of : Result Text Bytes → Bytes
  file_of (ok bytes) = bytes
  file_of (err e) = []

  -- A copy of the file, as it is by then.
  abbrev copy_of : PathBuf → Exec S (NoImage DE) (Unit {0})
  copy_of path s =
      let (bytes, s') = sources.read path s in keep_as (file_name path) (file_of bytes) s'

  unfoldable pub read_beacon_image : Option (BeaconTarget V) → Exec S (NoImage DE) (FirmwareImage V)
  unfolding read_image with_file_name
  read_beacon_image none = raise no_beacon_image
  read_beacon_image (some target) = do
    report reading_firmware
    image ← read_beacon (target).path
    if not (same_version semver (image).version (target).version)
        then raise (beacon_changed (target).path)
        else do report firmware_read; copy_of (target).path; pure image

  -- the check of what was read
  abbrev expect :
      Cartographer.Firmware V → CartographerTarget V → Bytes → Exec S (NoImage DE) (Unit {0})
  expect firmware target image = elim (check_image dictionary image firmware) [
    | err reason ↦ raise (refused (target).path reason)
    | ok identity ↦
        if bytes_eq (identity).version (target).reported
        then pure tt
        else raise (cartographer_changed (target).path)
  ]

  unfoldable pub read_cartographer_image :
      Cartographer.Firmware V → Option (CartographerTarget V) → Exec S (NoImage DE) Bytes
  unfolding check_image with_file_name
  read_cartographer_image firmware none = raise no_cartographer_image
  read_cartographer_image firmware (some target) = do
    report reading_firmware
    image ← wrapped (unreadable (target).path) (sources.read (target).path)
    expect firmware target image
    report firmware_read
    keep_as (file_name (target).path) image
    pure image

  -- the request for what an MCU runs
  abbrev request_for :
      Targets V
      → Mcu
      → Result Unsupported (Running V)
      → Exec S (NoImage DE) (FlashRequest (FirmwareImage V) PrebuiltLinks)
  request_for targets mcu (err reason) = raise (unsupported reason)
  request_for targets mcu (ok (runs_foci f)) = do
    image ← download_foci_firmware f (targets).foci
    pure (katapult_request Vendor.foci mcu image (application_start (f).board) usb_only)
  request_for targets mcu (ok (runs_cartographer f)) = do
    image ← read_cartographer_image f (cartographer_target (targets).cartographer mcu.name)
    pure (katapult_request Vendor.cartographer mcu image cartographer_start usb_or_can)
  request_for targets mcu (ok (runs_beacon v)) = do
    image ← read_beacon_image (beacon_target (targets).beacon mcu.name)
    pure (beacon_request mcu image)

  -- `None` for an MCU that is not prebuilt firmware
  unfoldable pub prepare_automatic :
      Targets V → Mcu → Option (Exec S (NoImage DE) (FlashRequest (FirmwareImage V) PrebuiltLinks))
  unfolding identify download_foci_firmware read_beacon_image read_cartographer_image
  prepare_automatic targets mcu = elim (identify semver mcu) [
    | none ↦ none
    | some running ↦ some (request_for targets mcu running)
  ]

module _ {V : Type 0} (semver : Semver V) (dictionary : Bytes → Option DictionaryIdentity) where
  abbrev pub Prepared : Type 0
  Prepared = Result ExplicitError (Option (FlashRequest (FirmwareImage V) PrebuiltLinks))

  abbrev foci_file : Mcu → Bytes → Option Foci.Board → Prepared
  foci_file mcu bytes none = err (unknown_foci_board mcu.mcu)
  foci_file mcu bytes (some board) =
      ok (some (katapult_request Vendor.foci mcu bytes (application_start board) usb_only))

  abbrev beacon_file : Mcu → Result ImageError (FirmwareImage V) → Prepared
  beacon_file mcu (err e) = err (not_beacon_image e)
  beacon_file mcu (ok image) = ok (some (beacon_request mcu image))

  abbrev cartographer_file_for : Mcu → Bytes → Result Mismatch ImageIdentity → Prepared
  cartographer_file_for mcu bytes (err e) = err (cartographer_file e)
  cartographer_file_for mcu bytes (ok identity) =
      ok (some (katapult_request Vendor.cartographer mcu bytes cartographer_start usb_or_can))

  abbrev other_file :
      Mcu → Bytes → Option (Result Cartographer.Unsupported (Cartographer.Firmware V)) → Prepared
  other_file mcu bytes (some (err e)) = err (cartographer_unmatched e)
  other_file mcu bytes (some (ok running)) =
      cartographer_file_for mcu bytes (check_image dictionary bytes running)
  other_file mcu bytes none =
      if is_foci mcu then foci_file mcu bytes (from_mcu mcu.mcu) else ok none

  unfoldable pub prepare_explicit : Mcu → Bytes → Prepared
  unfolding names_itself_beacon parse_image Cartographer.identify check_image is_foci
  prepare_explicit mcu bytes =
      if names_itself_beacon mcu
      then beacon_file mcu (parse_image semver bytes)
      else other_file mcu bytes (Cartographer.identify semver mcu)
