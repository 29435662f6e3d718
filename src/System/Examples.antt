-- ===== src/System/Examples.antt =====
-- A host that counts what touches its devices, and files that are flashed there.
use aldis.Prelude.{
  ℕ, suc, true, false, [], ◌∷◌, ◌≡◌, refl, Bytes, bytes_eq, none, some, Result, ok, err, Exec,
}
use aldis.Prelude.Text.{codes, all, one_of, any, lines}
use aldis.Fleet.{McuTransport, can}
use aldis.Flash.{FlashResult}
use aldis.Flash.Stm32.{ApplicationProbeResult, found, expected_application_start}
use aldis.Prepare.{PreparedBuild}
use aldis.Prebuilt.Requests.{usb_only}
use aldis.System.Types.{Devices, SystemFlashOptions, SystemFlashError, link_refused, katapult_usb}
use aldis.System.Usb.{Sysfs, ObservedUsbBootloader, katapult, classify_usb_identity}
use aldis.System.Host.{x86_64}
use aldis.System.{
  flash_prebuilt_katapult, flash_prebuilt_over, flash_prebuilt_usb, usb_serial_device, may_restore,
  resolve_stm32_firmware_file_target,
}
use aldis.System.Restore.{attempt, prebuilt, attempt-restored}
use aldis.System.Justified.{IsJustified, resolve_stm32_firmware_file_target-IsJustified}

katapult_by_maker : classify_usb_identity (codes "1209:0001") (codes "KATAPULT") ≡ some katapult
unfolding classify_usb_identity bytes_eq
katapult_by_maker = refl

-- How often a device was touched.
abbrev Host : Type 0
Host = ℕ

abbrev touched : {A : Type 0} → A → Exec Host ℕ A
touched a s = (ok a, suc s)

abbrev written : FlashResult
written = record { reported_pages = none; padded_bytes = 0 }

abbrev no_bootloader : ObservedUsbBootloader
no_bootloader = record { sysfs_path = []; usb_id = []; manufacturer = []; serial_device = none }

abbrev devices : Devices Host ℕ ℕ ℕ ℕ ℕ ℕ
devices = record {
  run = λ command. λ s. (ok (record { success = true; stdout = []; stderr = [] }), s);
  exists' = λ path s. true;
  request_and_observe = λ path. λ s. (ok no_bootloader, suc s);
  observe_at_path = λ path identity. λ s. (ok no_bootloader, suc s);
  request_serial_bootloader = λ path rate. touched tt;
  open_serial = λ path rate. touched (λ request. λ s. (ok [], suc s));
  open_samba = λ path. λ s. (err 0, suc s);
  open_can = λ interface. λ s. (err 0, suc s);
  wait_for_usb_device_access = λ path. touched tt;
  sleep = λ time s. s;
  probe_application_start_at_path = λ path. touched (found 0x08000000);
  leave_system_at_path = λ path start. touched tt;
  flash_stm32 = λ path start firmware. touched written;
  flash_picoboot = λ path firmware. touched written;
  request_beacon = λ path. λ s. (err 0, suc s);
  flash_beacon = λ observed image. touched written;
}

abbrev sysfs : Sysfs Host ℕ
sysfs = record {
  read_to_string = λ path s. none;
  is_file = λ path s. false;
  read_dir = λ path s. none;
  canonicalize = λ path s. err 2;
}

abbrev options : SystemFlashOptions
options = record { baud_rate = 250000; can_bootloader_settle = 0; host_mcu_unit_file = [] }

abbrev on_can : McuTransport
on_can = can (codes "can0") 1

abbrev prepared : PreparedBuild
prepared = record {
  target_name = codes "mcu";
  mcu = codes "stm32f072xb";
  transport = some on_can;
  request = record { kconfig = []; config_path = []; artifact_path = []; clean = false };
}

abbrev silent : {A : Type 0} → A → Host → Host
silent stage s = s

abbrev refused : Result (SystemFlashError ℕ ℕ ℕ ℕ ℕ ℕ) FlashResult × Host
refused =
    attempt devices sysfs (λ bytes. bytes) x86_64 options silent {V = Unit {0}} 0 prepared
      (prebuilt (1 ∷ []) 0 usb_only) 0

is_refused : refused ≡ (err (link_refused katapult_usb on_can), 0)
unfolding attempt flash_prebuilt_katapult flash_prebuilt_over flash_prebuilt_usb usb_serial_device
is_refused = refl

attempt-restored_example : refused.1 ≡ 0
unfolding may_restore
attempt-restored_example =
    attempt-restored devices sysfs (λ bytes. bytes) x86_64 options silent (λ s. s ≡ 0)
      (λ stage s p. p) (λ command s p. p) {V = Unit {0}} 0 prepared (prebuilt (1 ∷ []) 0 usb_only) 0
      (link_refused katapult_usb on_can) refl (λ i. (is_refused i).0) refl

-- a stack pointer in RAM and a reset vector just above 0x08002000
abbrev image : Bytes
image = 0 ∷ 0 ∷ 0 ∷ 0x20 ∷ 0x01 ∷ 0x20 ∷ 0 ∷ 0x08 ∷ []

abbrev placed : Result (SystemFlashError ℕ ℕ ℕ ℕ ℕ ℕ) ℕ × Host
placed = resolve_stm32_firmware_file_target devices sysfs (λ bytes. bytes) x86_64 [] [] image true 0

is_placed : placed ≡ (ok 0x08002000, 2)
unfolding resolve_stm32_firmware_file_target one_of all any lines
is_placed = refl

resolve_stm32_firmware_file_target-IsJustified_example :
    (probe : ApplicationProbeResult) × (t : Host) × (v : Host) × (touched (found 0x08000000) t
      ≡ (ok probe, v))
    × IsJustified image [] true 0x08002000 probe (expected_application_start image)
resolve_stm32_firmware_file_target-IsJustified_example =
    resolve_stm32_firmware_file_target-IsJustified devices sysfs (λ bytes. bytes) x86_64 [] [] image
      true 0x08002000 0 2 is_placed
