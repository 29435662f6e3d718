-- ===== src/System/Usb.antt =====
-- USB devices in sysfs (src/flash/usb_sysfs.rs) and the bootloaders among them
-- (src/flash/usb_bootloader.rs). The files of the host are read as its state has them; a path is the
-- list of its components.
use aldis.Prelude.{
  ◌&&◌, ◌||◌, not, Bool, false, if◌then◌else◌, List, [], ◌∷◌, ◌++◌, map, bytes_eq, Option, none,
  some, Result, ok, err,
}
use aldis.Prelude.Iter.{keep, filter_map}
use aldis.Prelude.Strings.{eq_ignore_ascii_case, to_ascii_lowercase}
use aldis.Prelude.Text.{Text, codes, is_empty, any, trim, starts_with, split_once}
use aldis.Prepare.{PathBuf}

-- What `std::fs` tells of the files of sysfs; the errors of reading are dropped where the code
-- drops them.
pub record Sysfs (S IE : Type 0) : Type 0 where
  pub read_to_string : PathBuf → S → Option Text
  pub is_file : PathBuf → S → Bool
  -- the names in a directory
  pub read_dir : PathBuf → S → Option (List Text)
  pub canonicalize : PathBuf → S → Result IE PathBuf

abbrev pub katapult_usb_id : Text
katapult_usb_id = codes "1d50:6177"

abbrev pub stm32_dfu_usb_id : Text
stm32_dfu_usb_id = codes "0483:df11"

abbrev pub picoboot_usb_ids : List Text
picoboot_usb_ids = codes "2e8a:0003" ∷ codes "2e8a:000f" ∷ []

abbrev pub samba_usb_ids : List Text
samba_usb_ids = codes "2886:002f" ∷ []

pub data UsbBootloaderKind : Type 0 where
  katapult stm32_dfu picoboot samba : UsbBootloaderKind

unfoldable pub classify_usb_identity : Text → Text → Option UsbBootloaderKind
unfolding eq_ignore_ascii_case any
classify_usb_identity usb_id manufacturer =
    if eq_ignore_ascii_case usb_id katapult_usb_id
      || eq_ignore_ascii_case manufacturer (codes "katapult")
    then some katapult
    else if eq_ignore_ascii_case usb_id stm32_dfu_usb_id
    then some stm32_dfu
    else if any (eq_ignore_ascii_case usb_id) picoboot_usb_ids
    then some picoboot
    else if any (eq_ignore_ascii_case usb_id) samba_usb_ids
    then some samba
    else none

pub record ObservedUsbBootloader : Type 0 where
  pub sysfs_path : PathBuf
  pub usb_id : Text
  pub manufacturer : Text
  pub serial_device : Option PathBuf

-- `ObservedUsbBootloader::kind`
abbrev pub kind_of : ObservedUsbBootloader → Option UsbBootloaderKind
kind_of observed = classify_usb_identity observed.usb_id observed.manufacturer

pub data SelectedUsbBootloader : Type 0 where
  -- sysfs path, serial device
  katapult_at : PathBuf → PathBuf → SelectedUsbBootloader
  stm32_dfu_at : PathBuf → SelectedUsbBootloader
  picoboot_at : PathBuf → SelectedUsbBootloader
  samba_at : PathBuf → PathBuf → SelectedUsbBootloader

pub record UsbTopologySnapshot : Type 0 where
  pub device_class : Text
  pub device_subclass : Text
  pub device_protocol : Text
  pub product : Text
  pub serial_number : Text

pub record UnsupportedBootloaderIdentity : Type 0 where
  pub usb_id : Text
  pub manufacturer : Text
  pub snapshot : UsbTopologySnapshot
  pub sysfs_path : PathBuf

pub data UsbBootloaderSelectionError : Type 0 where
  unsupported : UnsupportedBootloaderIdentity → UsbBootloaderSelectionError
  katapult_serial_device_missing : PathBuf → UsbBootloaderSelectionError
  samba_serial_device_missing : PathBuf → UsbBootloaderSelectionError

pub record UsbIdentity : Type 0 where
  pub usb_id : Text
  pub manufacturer : Text

-- the derived equality of identities
abbrev pub same_identity : UsbIdentity → UsbIdentity → Bool
same_identity a b = bytes_eq a.usb_id b.usb_id && bytes_eq a.manufacturer b.manufacturer

-- `UsbIdentity::is_complete`
abbrev pub both_there : Option (Text × Text) → Bool
both_there none = false
both_there (some (vendor, product)) = not (is_empty vendor) && not (is_empty product)

unfoldable pub is_complete : UsbIdentity → Bool
unfolding split_once
is_complete identity = both_there (split_once b':' identity.usb_id)

unfoldable pub non_empty_or : Text → Text → Text
non_empty_or value fallback = if is_empty value then fallback else value

-- a path and those above it
unfoldable pub ancestors : PathBuf → List PathBuf
ancestors [] = [] ∷ []
ancestors (name ∷ path) = map (λ above. name ∷ above) (ancestors path) ++ ([] ∷ [])

unfoldable pub first_path : (PathBuf → Bool) → List PathBuf → Option PathBuf
first_path test [] = none
first_path test (path ∷ paths) =
    let rest = first_path test paths in if test path then some path else rest

-- the last component of a path
unfoldable pub file_name : PathBuf → Option Text
file_name [] = none
file_name (name ∷ []) = some name
file_name (name ∷ next ∷ path) = file_name (next ∷ path)

-- the only element of a list
abbrev pub the_only : List Text → Option Text
the_only [] = none
the_only (x ∷ []) = some x
the_only (x ∷ y ∷ xs) = none

module _ {S IE : Type 0} (sysfs : Sysfs S IE) where
  abbrev pub read_sysfs_attribute : PathBuf → Text → S → Text
  unfolding trim
  read_sysfs_attribute path attribute s = elim (sysfs.read_to_string (path ++ (attribute ∷ [])) s) [
    | none ↦ []
    | some text ↦ trim text
  ]

  unfoldable pub usb_topology_snapshot : PathBuf → S → UsbTopologySnapshot
  usb_topology_snapshot path s = record {
    device_class = read_sysfs_attribute path (codes "bDeviceClass") s;
    device_subclass = read_sysfs_attribute path (codes "bDeviceSubClass") s;
    device_protocol = read_sysfs_attribute path (codes "bDeviceProtocol") s;
    product = read_sysfs_attribute path (codes "product") s;
    serial_number = read_sysfs_attribute path (codes "serial") s;
  }

  -- `read_sysfs_value`
  abbrev pub read_sysfs_value : PathBuf → Text → S → Text
  read_sysfs_value path attribute s = to_ascii_lowercase (read_sysfs_attribute path attribute s)

  unfoldable pub usb_identity : PathBuf → S → UsbIdentity
  usb_identity path s = record {
    usb_id =
        read_sysfs_value path (codes "idVendor") s
        ++ (b':' ∷ read_sysfs_value path (codes "idProduct") s);
    manufacturer = read_sysfs_value path (codes "manufacturer") s;
  }

  abbrev pub is_usb_device : S → PathBuf → Bool
  is_usb_device s path =
      sysfs.is_file (path ++ (codes "idVendor" ∷ [])) s
      && sysfs.is_file (path ++ (codes "idProduct" ∷ [])) s
      && sysfs.is_file (path ++ (codes "busnum" ∷ [])) s
      && sysfs.is_file (path ++ (codes "devnum" ∷ [])) s

  unfoldable pub usb_device_ancestor : PathBuf → S → Option PathBuf
  unfolding first_path ancestors
  usb_device_ancestor start s = first_path (is_usb_device s) (ancestors start)

  -- the entries of a directory that cannot be read are none
  abbrev pub entries : PathBuf → S → List Text
  entries path s = elim (sysfs.read_dir path s) [ none ↦ [] | some names ↦ names ]

  -- the serial devices of one interface
  unfoldable pub ttys_of : S → PathBuf → List Text → List Text
  ttys_of s interface [] = []
  ttys_of s interface (name ∷ names) =
      (if bytes_eq name (codes "tty") then entries (interface ++ (name ∷ [])) s else [])
      ++ ttys_of s interface names

  unfoldable pub ttys_below : S → PathBuf → List Text → List Text
  unfolding ttys_of
  ttys_below s path [] = []
  ttys_below s path (interface ∷ interfaces) =
      ttys_of s (path ++ (interface ∷ [])) (entries (path ++ (interface ∷ [])) s)
      ++ ttys_below s path interfaces

  abbrev pub device_node : Option Text → Option PathBuf
  device_node none = none
  device_node (some tty) = some (codes "dev" ∷ tty ∷ [])

  abbrev pub tty_among : PathBuf → Text → Option (List Text) → S → Option PathBuf
  unfolding ttys_below keep starts_with
  tty_among path name none s = none
  tty_among path name (some interfaces) s = device_node (
      the_only (
        keep (starts_with (codes "tty"))
          (ttys_below s path (keep (starts_with (name ++ (b':' ∷ []))) interfaces))))

  unfoldable pub usb_tty : PathBuf → S → Option PathBuf
  unfolding file_name
  usb_tty path s = elim (file_name path) [
    | none ↦ none
    | some name ↦ tty_among path name (sysfs.read_dir path s) s
  ]

  abbrev pub unsupported_at : ObservedUsbBootloader → S → UsbBootloaderSelectionError
  unfolding non_empty_or usb_topology_snapshot
  unsupported_at observed s =
      let snapshot = usb_topology_snapshot observed.sysfs_path s in
      unsupported (record {
        usb_id = observed.usb_id;
        manufacturer = observed.manufacturer;
        snapshot = record {
          device_class = snapshot.device_class;
          device_subclass = snapshot.device_subclass;
          device_protocol = snapshot.device_protocol;
          product = non_empty_or snapshot.product (codes "unknown");
          serial_number = non_empty_or snapshot.serial_number (codes "none");
        };
        sysfs_path = observed.sysfs_path;
      })

  unfoldable pub select_usb_bootloader :
      ObservedUsbBootloader → S → Result UsbBootloaderSelectionError SelectedUsbBootloader
  unfolding classify_usb_identity
  select_usb_bootloader observed s = elim (kind_of observed) [
    | some katapult ↦ elim (observed.serial_device) [
      | none ↦ err (katapult_serial_device_missing observed.sysfs_path)
      | some device ↦ ok (katapult_at observed.sysfs_path device)
    ]
    | some stm32_dfu ↦ ok (stm32_dfu_at observed.sysfs_path)
    | some picoboot ↦ ok (picoboot_at observed.sysfs_path)
    | some samba ↦ elim (observed.serial_device) [
      | none ↦ err (samba_serial_device_missing observed.sysfs_path)
      | some device ↦ ok (samba_at observed.sysfs_path device)
    ]
    | none ↦ err (unsupported_at observed s)
  ]

  -- one entry of `usb_device_dirs`
  abbrev pub device_dir : S → PathBuf → List PathBuf
  device_dir s path =
      if sysfs.is_file (path ++ (codes "idVendor" ∷ [])) s
        && sysfs.is_file (path ++ (codes "idProduct" ∷ [])) s
      then elim (sysfs.canonicalize path s) [ err e ↦ [] | ok found ↦ found ∷ [] ]
      else []

  unfoldable pub device_dirs : S → PathBuf → List Text → List PathBuf
  device_dirs s root [] = []
  device_dirs s root (name ∷ names) = device_dir s (root ++ (name ∷ [])) ++ device_dirs s root names

  unfoldable pub usb_device_dirs : PathBuf → S → List PathBuf
  unfolding device_dirs
  usb_device_dirs root s = device_dirs s root (entries root s)

  abbrev pub observed_at : S → PathBuf → ObservedUsbBootloader
  unfolding usb_identity usb_tty
  observed_at s path = record {
    sysfs_path = path;
    usb_id = (usb_identity path s).usb_id;
    manufacturer = (usb_identity path s).manufacturer;
    serial_device = usb_tty path s;
  }

  abbrev pub known_at : S → PathBuf → Option ObservedUsbBootloader
  unfolding classify_usb_identity
  known_at s path = elim (kind_of (observed_at s path)) [
    | none ↦ none
    | some kind ↦ some (observed_at s path)
  ]

  unfoldable pub scan_usb_bootloaders : PathBuf → S → List ObservedUsbBootloader
  unfolding usb_device_dirs filter_map
  scan_usb_bootloaders root s = filter_map (known_at s) (usb_device_dirs root s)
