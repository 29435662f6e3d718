-- ===== src/System/Types.antt =====
-- What the dispatch of src/flash/system.rs is given, calls and returns. Errors of crates and of the
-- host are parameters: `IE` of input and output, `SE` of a serial port, `DE` of STM32 DFU, `PE` of
-- PicoBoot, `BE` of Beacon's DFU, `CE` of running a command.
use aldis.Prelude.{ℕ, ◌*◌, ◌^◌, Bool, Bytes, List, Exec}
use aldis.Prelude.Text.{Text}
use aldis.Fleet.{McuTransport}
use aldis.Flash.{FlashResult}
use aldis.Flash.Stm32.{ApplicationProbeResult}
use aldis.Flash.Samba.{SambaError}
use aldis.Flash.Samba.Monitor.{SambaPort}
use aldis.Katapult.Session.{SessionError}
use aldis.Katapult.Adapter.{KatapultFlashError}
use aldis.Katapult.Can.{CanIo, CanTransportError}
use aldis.Katapult.Serial.{SerialTransportError}
use aldis.Katapult.Bootstrap.{CanBootstrapError}
use aldis.Service.{BuildCommand, CommandOutput}
use aldis.Prepare.{PathBuf}
use aldis.System.Usb.{
  ObservedUsbBootloader, UsbBootloaderKind, UsbBootloaderSelectionError, UsbIdentity,
}
use aldis.System.Host.{LinuxHostError}
use aldis.System.Entry.{UsbBootloaderError}

-- 500 ms, in nanoseconds
abbrev pub uart_bootloader_settle : ℕ
uart_bootloader_settle = 500 * 10 ^ 6

-- The target of STM32 and of SAM-BA is the application's start.
pub data SerialFlashRoute : Type 0 where
  to_katapult : PathBuf → SerialFlashRoute
  to_stm32_dfu : PathBuf → ℕ → SerialFlashRoute
  to_picoboot : PathBuf → SerialFlashRoute
  to_samba : PathBuf → ℕ → SerialFlashRoute

pub data Stm32TargetSource : Type 0 where
  from_kconfig : Text → Stm32TargetSource
  -- firmware, force
  from_firmware_file : Bytes → Bool → Stm32TargetSource

pub data PrebuiltRoute : Type 0 where
  katapult_usb katapult_usb_or_can beacon_usb : PrebuiltRoute

-- what the timing of `SystemKatapultOptions` decides is in the devices below
pub record SystemFlashOptions : Type 0 where
  pub baud_rate : ℕ
  pub can_bootloader_settle : ℕ
  pub host_mcu_unit_file : PathBuf

pub data SystemFlashError (IE SE DE PE BE CE : Type 0) : Type 0 where
  missing_transport : SystemFlashError IE SE DE PE BE CE
  bootloader : UsbBootloaderError SE → SystemFlashError IE SE DE PE BE CE
  usb_access : IE → SystemFlashError IE SE DE PE BE CE
  -- the error, the transport that was asked
  selection : UsbBootloaderSelectionError → McuTransport → SystemFlashError IE SE DE PE BE CE
  stm32_target : SystemFlashError IE SE DE PE BE CE
  unrecognized_firmware_target : SystemFlashError IE SE DE PE BE CE
  stm32_probe : DE → SystemFlashError IE SE DE PE BE CE
  -- the firmware's offset, the device's
  stm32_target_mismatch : ℕ → ℕ → SystemFlashError IE SE DE PE BE CE
  stm32_mismatch_recovery : DE → SystemFlashError IE SE DE PE BE CE
  -- candidates, the firmware's offset
  stm32_ambiguous_application : List ℕ → ℕ → SystemFlashError IE SE DE PE BE CE
  uart_bootloader_request : SE → SystemFlashError IE SE DE PE BE CE
  uart_katapult_not_entered :
      SessionError (SerialTransportError IE) → SystemFlashError IE SE DE PE BE CE
  katapult_open : SE → SystemFlashError IE SE DE PE BE CE
  katapult_flash : KatapultFlashError (SerialTransportError IE) → SystemFlashError IE SE DE PE BE CE
  stm32_dfu_failed : DE → SystemFlashError IE SE DE PE BE CE
  picoboot_failed : PE → SystemFlashError IE SE DE PE BE CE
  samba_open : SE → SystemFlashError IE SE DE PE BE CE
  samba_failed : SambaError IE → SystemFlashError IE SE DE PE BE CE
  can_socket : IE → SystemFlashError IE SE DE PE BE CE
  can_usb_topology : IE → SystemFlashError IE SE DE PE BE CE
  can_bootstrap : CanBootstrapError IE → SystemFlashError IE SE DE PE BE CE
  can_flash : KatapultFlashError (CanTransportError IE) → SystemFlashError IE SE DE PE BE CE
  linux_host : LinuxHostError CE → SystemFlashError IE SE DE PE BE CE
  link_refused : PrebuiltRoute → McuTransport → SystemFlashError IE SE DE PE BE CE
  not_katapult : UsbBootloaderKind → McuTransport → SystemFlashError IE SE DE PE BE CE
  beacon_dfu_failed : BE → SystemFlashError IE SE DE PE BE CE
  -- the bootloader's USB id, the image's
  beacon_image_mismatch : Text → Text → SystemFlashError IE SE DE PE BE CE

-- An open CAN socket, and the transport over it.
pub record CanLink (S IE : Type 0) : Type 0 where
  pub io : CanIo S IE
  pub exchange : Bytes → Exec S (CanTransportError IE) Bytes

-- `beacon_dfu::ObservedBootloader`
pub record BeaconBootloader : Type 0 where
  pub sysfs_path : PathBuf
  pub vendor_id : ℕ
  pub product_id : ℕ
  pub product : Text

-- What the host does with devices; opening waits until a device is ready. Entering a bootloader is
-- modelled in `Entry`, an exchange over a serial line in `Katapult/Serial`.
pub record Devices (S IE SE DE PE BE CE : Type 0) : Type 0 where
  pub run : BuildCommand → Exec S CE CommandOutput
  pub exists' : PathBuf → S → Bool
  pub request_and_observe : PathBuf → Exec S (UsbBootloaderError SE) ObservedUsbBootloader
  pub observe_at_path : PathBuf → UsbIdentity → Exec S (UsbBootloaderError SE) ObservedUsbBootloader
  pub request_serial_bootloader : PathBuf → ℕ → Exec S SE (Unit {0})
  -- device, baud rate; the exchange of the transport over it
  pub open_serial : PathBuf → ℕ → Exec S SE (Bytes → Exec S (SerialTransportError IE) Bytes)
  pub open_samba : PathBuf → Exec S SE (SambaPort S IE)
  pub open_can : Text → Exec S IE (CanLink S IE)
  pub wait_for_usb_device_access : PathBuf → Exec S IE (Unit {0})
  pub sleep : ℕ → S → S
  pub probe_application_start_at_path : PathBuf → Exec S DE ApplicationProbeResult
  pub leave_system_at_path : PathBuf → ℕ → Exec S DE (Unit {0})
  -- device, application start, firmware
  pub flash_stm32 : PathBuf → ℕ → Bytes → Exec S DE FlashResult
  pub flash_picoboot : PathBuf → Bytes → Exec S PE FlashResult
  pub request_beacon : PathBuf → Exec S BE BeaconBootloader
  pub flash_beacon : BeaconBootloader → Bytes → Exec S BE FlashResult
