-- ===== src/Vendors/Beacon/Targets.antt =====
-- The image that a Beacon is updated to (src/beacon.rs). The file system is a parameter: which
-- directories there are, where a link leads, what a file holds and what product name the device
-- behind a serial port has.
use aldis.Prelude.{
  Bool, if◌then◌else◌, List, [], ◌∷◌, ◌++◌, map, Bytes, bytes_eq, Option, none, some, Result, ok,
  err, and_then,
}
use aldis.Prelude.Text.{Text, codes, any}
use aldis.Prelude.Iter.{keep, find}
use aldis.Prelude.Strings.{lookup}
use aldis.Fleet.{Mcu, McuTransport, serial, can}
use aldis.Prepare.{PathBuf}
use aldis.Eligibility.{Semver, chain}
use aldis.Vendors.Beacon.{revision_from_product, is_beacon}
use aldis.Vendors.Beacon.Image.{FirmwareImage, ImageError, parse_image, usb_id}

pub data Unavailable : Type 0 where
  no_checkout not_configured : Unavailable
  not_usb : McuTransport → Unavailable
  no_product : Text → Unavailable
  unknown_revision : Text → Unavailable
  unreadable : PathBuf → Text → Unavailable
  invalid_image : PathBuf → ImageError → Unavailable
  -- path, image, bootloader
  wrong_bootloader : PathBuf → Text → Text → Unavailable

pub record BeaconTarget (V : Type 0) : Type 0 where
  pub revision : Text
  pub path : PathBuf
  pub version : V

pub record BeaconTargets (V : Type 0) : Type 0 where
  pub checkout : Option PathBuf
  pub mcus : List (Text × Result Unavailable (BeaconTarget V))

-- `.ok()`
abbrev pub known : {E A : Type 0} → Option (Result E A) → Option A
known (some (ok a)) = some a
known (some (err e)) = none
known none = none

unfoldable pub beacon_target : {V : Type 0} → BeaconTargets V → Text → Option (BeaconTarget V)
unfolding lookup
beacon_target targets name = known (lookup name targets.mcus)

abbrev pub image_path : PathBuf → Text → PathBuf
image_path checkout revision =
    checkout ++ (codes "firmware" ∷ (codes "rev" ++ (revision ++ codes ".dfu")) ∷ [])

-- `Path::parent`
abbrev pub parent : PathBuf → Option PathBuf
parent [] = none
parent (x ∷ []) = some []
parent (x ∷ y ∷ path) = elim (parent (y ∷ path)) [ none ↦ none | some p ↦ some (x ∷ p) ]

abbrev pub option_list : {A : Type 0} → Option A → List A
option_list none = []
option_list (some a) = a ∷ []

module _ (is_dir : PathBuf → Bool) (canonicalize : PathBuf → Option PathBuf) where
  abbrev has_firmware : PathBuf → Bool
  has_firmware path = is_dir (path ++ (codes "firmware" ∷ []))

  unfoldable pub locate_checkout : Option PathBuf → Option PathBuf → Option PathBuf → Option PathBuf
  unfolding find
  locate_checkout (some configured) klipper_source home =
      if has_firmware configured then some configured else none
  locate_checkout none klipper_source home =
      let linked = chain klipper_source (λ source.
        chain (canonicalize (source ++ (codes "klippy" ∷ codes "extras" ∷ codes "beacon.py" ∷ [])))
          parent) in
      find has_firmware (
        option_list linked
        ++ option_list (chain home (λ dir. some (dir ++ (codes "beacon_klipper" ∷ [])))))

module _ {V : Type 0} (semver : Semver V) (read : PathBuf → Result Text Bytes) where
  unfoldable pub read_image : PathBuf → Result Unavailable (FirmwareImage V)
  unfolding parse_image
  read_image path = elim (read path) [
    | err reason ↦ err (unreadable path reason)
    | ok file ↦ elim (parse_image semver file) [
      | err reason ↦ err (invalid_image path reason)
      | ok image ↦ ok image
    ]
  ]

  -- the target for a revision
  abbrev target_for : PathBuf → Text → Result Unavailable (BeaconTarget V)
  target_for checkout revision =
      and_then (read_image (image_path checkout revision)) (λ (image : FirmwareImage V).
        ok (record {
          revision = revision;
          path = image_path checkout revision;
          version = image.version;
        }))

  abbrev target_of : PathBuf → Text → Option Text → Result Unavailable (BeaconTarget V)
  target_of checkout device none = err (no_product device)
  target_of checkout device (some product) = elim (revision_from_product product) [
    | none ↦ err (unknown_revision product)
    | some revision ↦ target_for checkout revision
  ]

  unfoldable pub resolve_target :
      (Text → Option Text) → PathBuf → Option McuTransport → Result Unavailable (BeaconTarget V)
  unfolding read_image revision_from_product
  resolve_target usb_product checkout (some (serial device)) =
      target_of checkout device (usb_product device)
  resolve_target usb_product checkout (some (can interface uuid)) =
      err (not_usb (can interface uuid))
  resolve_target usb_product checkout none = err not_configured

  abbrev target_in :
      (Text → Option Text) → Option PathBuf → Mcu → Text × Result Unavailable (BeaconTarget V)
  target_in usb_product none mcu = (mcu.name, err no_checkout)
  target_in usb_product (some checkout) mcu =
      (mcu.name, resolve_target usb_product checkout mcu.transport)

  unfoldable pub resolve_targets :
      (Text → Option Text) → List Mcu → Option PathBuf → BeaconTargets V
  unfolding resolve_target is_beacon keep
  resolve_targets usb_product mcus checkout = record {
    checkout = checkout;
    mcus = map (target_in usb_product checkout) (keep (is_beacon semver) mcus);
  }

  -- `targets_for`, with the checkout that is found
  unfoldable pub targets_for : (Text → Option Text) → List Mcu → Option PathBuf → BeaconTargets V
  unfolding resolve_targets any
  targets_for usb_product mcus found =
      if any (is_beacon semver) mcus
      then resolve_targets usb_product mcus found
      else record { checkout = none; mcus = [] }

  -- the image, if it is for this bootloader
  abbrev for_bootloader :
      PathBuf → Text → FirmwareImage V → Result Unavailable (PathBuf × FirmwareImage V)
  for_bootloader path bootloader image =
      if bytes_eq (usb_id image) bootloader
      then ok (path, image)
      else err (wrong_bootloader path (usb_id image) bootloader)

  unfoldable pub recovery_image :
      Option PathBuf → Text → Text → Result Unavailable (PathBuf × FirmwareImage V)
  unfolding read_image usb_id
  recovery_image none product bootloader = err no_checkout
  recovery_image (some checkout) product bootloader = elim (revision_from_product product) [
    | none ↦ err (unknown_revision product)
    | some revision ↦
        and_then (read_image (image_path checkout revision))
          (for_bootloader (image_path checkout revision) bootloader)
  ]
