-- ===== src/Prebuilt/Requests/Checked.antt =====
-- A file that the user names is flashed only if it suits the vendor's MCU.
use aldis.Prelude.{
  true, false, Bool-cases, Option-cases, Result-cases, Bytes, Option, none, some, ok, err, ◌≡◌, ap,
  ◌∙◌, inl, inr,
}
use aldis.Fleet.{Mcu}
use aldis.Prepare.{Vendor, FlashRequest, katapult_request, beacon_request}
use aldis.Eligibility.{Semver}
use aldis.Vendors.Foci.{Board, is_foci, from_mcu, application_start}
use aldis.Vendors.Beacon.{names_itself_beacon}
use aldis.Vendors.Beacon.Image.{FirmwareImage, parse_image}
use aldis.Vendors.Cartographer
use aldis.Vendors.Cartographer.{ImageIdentity, DictionaryIdentity, cartographer_start, check_image}
use aldis.Vendors.Cartographer.Select.Suits.{Suits, check_image-Suits}
use aldis.Prebuilt.Requests.{
  PrebuiltLinks, usb_only, usb_or_can, Prepared, prepare_explicit, other_file, foci_file,
  cartographer_file_for,
}

module _ {V : Type 0} (semver : Semver V) (dictionary : Bytes → Option DictionaryIdentity)
    (mcu : Mcu) (bytes : Bytes) where
  -- Why a request may carry the file, or why the file may go through the ordinary flash.
  pub data IsExplained : Option (FlashRequest (FirmwareImage V) PrebuiltLinks) → Type 0 where
    -- a Beacon image, for an MCU that names itself Beacon
    for_beacon :
        (image : FirmwareImage V)
        → names_itself_beacon mcu ≡ true
        → parse_image semver bytes ≡ ok image
        → IsExplained (some (beacon_request mcu image))
    -- an image that suits the Cartographer
    for_cartographer :
        (running : Cartographer.Firmware V) (identity : ImageIdentity)
        → Cartographer.identify semver mcu ≡ some (ok running)
        → Suits semver dictionary running bytes identity
        → IsExplained
            (some (katapult_request Vendor.cartographer mcu bytes cartographer_start usb_or_can))
    -- any file for a board that FOCI publishes for, at that board's start
    for_foci :
        (board : Board)
        → is_foci mcu ≡ true
        → from_mcu mcu.mcu ≡ some board
        → IsExplained
            (some (katapult_request Vendor.foci mcu bytes (application_start board) usb_only))
    no_vendor :
        names_itself_beacon mcu ≡ false
        → Cartographer.identify semver mcu ≡ none
        → is_foci mcu ≡ false
        → IsExplained none

  abbrev Explained : Prepared semver dictionary → Type 0
  Explained (ok r) = IsExplained r
  Explained (err e) = Unit

  cartographer-Explained :
      (running : Cartographer.Firmware V)
      → Cartographer.identify semver mcu ≡ some (ok running)
      → Explained
          (cartographer_file_for semver dictionary mcu bytes (check_image dictionary bytes running))
  cartographer-Explained running is = elim (Result-cases (check_image dictionary bytes running)) [
    | inr (e, bad) ↦ rw bad tt
    | inl (identity, good) ↦ rw good (
        for_cartographer running identity is
          (check_image-Suits semver dictionary bytes running identity good))
  ]

  foci-Explained :
      is_foci mcu ≡ true → Explained (foci_file semver dictionary mcu bytes (from_mcu mcu.mcu))
  foci-Explained is = elim (Option-cases (from_mcu mcu.mcu)) [
    | inl none' ↦ rw none' tt
    | inr (board, some') ↦ rw some' (for_foci board is some')
  ]

  other-Explained :
      names_itself_beacon mcu ≡ false
      → Explained (other_file semver dictionary mcu bytes (Cartographer.identify semver mcu))
  other-Explained not_beacon = elim (Option-cases (Cartographer.identify semver mcu)) [
    | inr (r, some') ↦ elim (Result-cases r) [
      | inr (e, bad) ↦ rw (some', bad) tt
      | inl (running, good) ↦
          rw (some', good) (cartographer-Explained running (some' ∙ ap some good))
    ]
    | inl none' ↦ elim (Bool-cases (is_foci mcu)) [
      | inl is ↦ rw (none', is) (foci-Explained is)
      | inr no_foci ↦ rw (none', no_foci) (no_vendor not_beacon none' no_foci)
    ]
  ]

  explained : Explained (prepare_explicit semver dictionary mcu bytes)
  unfolding prepare_explicit
  explained = elim (Bool-cases (names_itself_beacon mcu)) [
    | inr not_beacon ↦ rw (not_beacon, prepare_explicit) (other-Explained not_beacon)
    | inl is ↦ elim (Result-cases (parse_image semver bytes)) [
      | inr (e, bad) ↦ rw (is, prepare_explicit, bad) tt
      | inl (image, good) ↦ rw (is, prepare_explicit, good) (for_beacon image is good)
    ]
  ]

  -- A file that is prepared for a vendor's MCU is a Beacon image for what names itself Beacon, or
  -- an image for the very MCU, link and bitrate of a Cartographer, or is sent to the start of a
  -- FOCI board; and only an MCU of none of these vendors leaves it to the ordinary flash.
  pub prepare_explicit-IsExplained :
      (r : Option (FlashRequest (FirmwareImage V) PrebuiltLinks))
      → prepare_explicit semver dictionary mcu bytes ≡ ok r
      → IsExplained r
  prepare_explicit-IsExplained r h = rw h at explained
