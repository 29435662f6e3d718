-- ===== src/System/Entry.antt =====
-- Asking an MCU on USB to enter its bootloader, and what then appears at its place
-- (src/flash/katapult/serial.rs). The pulse on the serial port, the clock and sleeping are
-- parameters; the waits run on fuel, as `retry_until_available` does.
use aldis.Prelude.{
  ℕ, ◌&&◌, not, Bool, true, false, if◌then◌else◌, [], ◌∷◌, ◌++◌, Option, none, some, Result, ok,
  err, Exec,
}
use aldis.Prelude.Text.{Text, codes}
use aldis.Prepare.{PathBuf}
use aldis.Update.Retry.{retry_until_available}
use aldis.System.Usb.{
  Sysfs, UsbBootloaderKind, katapult, samba, stm32_dfu, picoboot, classify_usb_identity,
  ObservedUsbBootloader, UsbIdentity, same_identity, is_complete, usb_identity, usb_tty,
  usb_device_ancestor, file_name,
}

abbrev pub is_serial_kind : Option UsbBootloaderKind → Bool
is_serial_kind none = false
is_serial_kind (some katapult) = true
is_serial_kind (some samba) = true
is_serial_kind (some stm32_dfu) = false
is_serial_kind (some picoboot) = false

unfoldable pub awaiting_serial_device : UsbIdentity → Option PathBuf → Bool
unfolding classify_usb_identity
awaiting_serial_device identity (some device) = false
awaiting_serial_device identity none =
    is_serial_kind (classify_usb_identity identity.usb_id identity.manufacturer)

pub data UsbBootloaderError (SE : Type 0) : Type 0 where
  not_usb_device : PathBuf → UsbBootloaderError SE
  not_detected no_effect : PathBuf → Option SE → UsbBootloaderError SE

-- initial, last observed
unfoldable pub timeout_outcome :
    {SE : Type 0} → UsbIdentity → UsbIdentity → PathBuf → Option SE → UsbBootloaderError SE
timeout_outcome initial last_observed device reset_error =
    if same_identity last_observed initial
    then no_effect device reset_error
    else not_detected device reset_error

abbrev pub tty_sysfs_root : PathBuf
tty_sysfs_root = codes "sys" ∷ codes "class" ∷ codes "tty" ∷ []

abbrev pub error_of : {SE A : Type 0} → Result SE A → Option SE
error_of (ok a) = none
error_of (err e) = some e

module _ {S IE : Type 0} (sysfs : Sysfs S IE) where
  unfoldable pub observed_if_ready : PathBuf → UsbIdentity → S → Option ObservedUsbBootloader
  unfolding awaiting_serial_device usb_tty
  observed_if_ready usb_path identity s =
      let serial_device = usb_tty sysfs usb_path s in
      if awaiting_serial_device identity serial_device
      then none
      else some (record {
        sysfs_path = usb_path;
        usb_id = identity.usb_id;
        manufacturer = identity.manufacturer;
        serial_device = serial_device;
      })

  abbrev pub canonical : PathBuf → S → Option PathBuf
  canonical path s = elim (sysfs.canonicalize path s) [ ok found ↦ some found | err e ↦ none ]

  abbrev pub tty_at : S → PathBuf → Option Text → Option PathBuf
  tty_at s root none = none
  tty_at s root (some tty) = canonical (root ++ (tty ∷ [])) s

  unfoldable pub tty_sysfs_path : PathBuf → PathBuf → S → Option PathBuf
  unfolding file_name
  tty_sysfs_path root device s = elim (canonical device s) [
    | none ↦ none
    | some found ↦ tty_at s root (file_name found)
  ]

  unfoldable pub usb_device_path : PathBuf → S → Option PathBuf
  unfolding tty_sysfs_path usb_device_ancestor
  usb_device_path device s = elim (tty_sysfs_path tty_sysfs_root device s) [
    | none ↦ none
    | some tty ↦ usb_device_ancestor sysfs tty s
  ]

  abbrev pub no_ancestor : Option PathBuf → Bool
  no_ancestor none = true
  no_ancestor (some path) = false

  unfoldable pub is_tty_without_usb_device : PathBuf → S → Bool
  unfolding tty_sysfs_path usb_device_ancestor
  is_tty_without_usb_device device s = elim (tty_sysfs_path tty_sysfs_root device s) [
    | none ↦ false
    | some tty ↦ no_ancestor (usb_device_ancestor sysfs tty s)
  ]

  -- What a wait remembers beside the host: the identity it saw last.
  abbrev pub Watch : Type 0
  Watch = S × UsbIdentity

  abbrev pub changed : UsbIdentity → UsbIdentity → Bool
  unfolding is_complete
  changed initial identity = not (same_identity identity initial) && is_complete identity

  -- one look of a wait
  unfoldable pub look : PathBuf → UsbIdentity → Exec Watch (Unit {0}) ObservedUsbBootloader
  unfolding observed_if_ready usb_identity is_complete
  look usb_path initial (s, last) =
      let identity = usb_identity sysfs usb_path s in
      let ready = observed_if_ready usb_path identity s in
      (
        if changed initial identity
            then elim ready [ none ↦ err tt | some observed ↦ ok observed ]
            else err tt,
        (s, identity),
      )

  module _ (now : S → ℕ) (sleep : ℕ → S → S) (fuel timeout poll_interval : ℕ) where
    abbrev pub watch :
        PathBuf → UsbIdentity → S → Option (Result (Unit {0}) ObservedUsbBootloader × Watch)
    unfolding look retry_until_available
    watch usb_path initial s =
        retry_until_available (λ (w : Watch). now w.0) (λ n w. (sleep n w.0, w.1))
          (look usb_path initial) fuel timeout poll_interval (s, initial)

  module _ {SE : Type 0} (now : S → ℕ) (sleep : ℕ → S → S) (fuel timeout poll_interval : ℕ) where
    abbrev pub outcome_of :
        UsbIdentity
        → PathBuf
        → Option SE
        → Option (Result (Unit {0}) ObservedUsbBootloader × Watch)
        → Option (Result (UsbBootloaderError SE) ObservedUsbBootloader × S)
    outcome_of initial device reset_error none = none
    outcome_of initial device reset_error (some (ok observed, (s, last))) = some (ok observed, s)
    outcome_of initial device reset_error (some (err e, (s, last))) =
        some (err (timeout_outcome initial last device reset_error), s)

    unfoldable pub observe_any_usb_bootloader_at_path :
        PathBuf
        → UsbIdentity
        → S
        → Option (Result (UsbBootloaderError SE) ObservedUsbBootloader × S)
    unfolding timeout_outcome
    observe_any_usb_bootloader_at_path usb_path initial s =
        outcome_of initial usb_path none
          (watch now sleep fuel timeout poll_interval usb_path initial s)

    unfoldable pub request_and_observe_any_usb_bootloader :
        (PathBuf → Exec S SE (Unit {0}))
        → PathBuf
        → S
        → Option (Result (UsbBootloaderError SE) ObservedUsbBootloader × S)
    unfolding usb_device_path usb_identity timeout_outcome
    request_and_observe_any_usb_bootloader request path s = elim (usb_device_path path s) [
      | none ↦ some (err (not_usb_device path), s)
      | some usb_path ↦
          let initial = usb_identity sysfs usb_path s in
          let (pulsed, s') = request path s in
          outcome_of initial path (error_of pulsed)
            (watch now sleep fuel timeout poll_interval usb_path initial s')
    ]
