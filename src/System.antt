-- ===== src/System.antt =====
-- Flashing on the host (src/flash/system.rs): which backend a prepared MCU is sent to, by its
-- transport and by the bootloader that appears, and the routes that prebuilt firmware may take.
-- Devices and the files of sysfs are parameters that act on the state of the host.
pub mod Usb
pub mod Host
pub mod Entry
pub mod Types
pub mod Final
pub mod Restore
pub mod Justified
mod Examples
use aldis.Prelude.{
  ℕ, ◌==◌, ◌^◌, ◌&&◌, not, Bool, true, false, if◌then◌else◌, List, [], ◌∷◌, ◌++◌, Bytes, bytes_eq,
  Option, none, some, Result, ok, err, map_err, lift, Exec, ◌>>=◌, ◌>>◌, pure, raise,
}
use aldis.Prelude.Iter.{find_map}
use aldis.Prelude.Strings.{parse_below}
use aldis.Prelude.Text.{Text, codes, lines, trim, strip_prefix}
use aldis.Coordinator.{
  FlashCoordinatorError, coordinator, artifact, flash_failed, SystemFlashProgress, entering,
  bootloader_ready, flashing, installing,
}
use aldis.Fleet.{McuTransport, serial, can, kconfig_selects_usb_can_bridge}
use aldis.Flash.{FlashResult}
use aldis.Flash.Stm32.{
  ApplicationProbeResult, found, not_found, ambiguous, target_from_kconfig,
  expected_application_start, plausible_application_starts, select_application_start,
}
use aldis.Flash.Samba
use aldis.Flash.Samba.Monitor
use aldis.Katapult.Adapter.{KatapultAdapter, for_target, expecting_application_start}
use aldis.Katapult.Adapter
use aldis.Katapult.Bootstrap.{confirm_bootloader, request_can_bootloader, connect}
use aldis.Prepare.{PathBuf, PreparedBuild}
use aldis.Prebuilt.Requests.{PrebuiltLinks, usb_only, usb_or_can}
use aldis.Vendors.Beacon.Image.{FirmwareImage, hex_word, usb_id}
use aldis.Builder.{is_linux_host}
use aldis.System.Usb.{
  Sysfs, ObservedUsbBootloader, SelectedUsbBootloader, katapult_at, stm32_dfu_at, picoboot_at,
  samba_at, stm32_dfu, picoboot, samba, UsbIdentity, usb_identity, usb_device_ancestor,
  select_usb_bootloader,
}
use aldis.System.Host.{TargetArch, install}
use aldis.System.Entry.{is_tty_without_usb_device}
use aldis.System.Types.*

abbrev pub path_of : Text → PathBuf
path_of device = device ∷ []

abbrev pub parse_u32 : Text → Option ℕ
unfolding parse_below
parse_u32 s = elim (strip_prefix (b'+' ∷ []) s) [
  | none ↦ parse_below (2 ^ 32) s
  | some rest ↦ parse_below (2 ^ 32) rest
]

abbrev pub baud_of : Text → Option ℕ
unfolding strip_prefix parse_below
baud_of line = elim (strip_prefix (codes "CONFIG_SERIAL_BAUD=") (trim line)) [
  | none ↦ none
  | some value ↦ parse_u32 value
]

unfoldable pub kconfig_serial_baud : Text → Option ℕ
unfolding find_map lines trim strip_prefix parse_below
kconfig_serial_baud config = find_map baud_of (lines config)

unfoldable pub installed_application_start :
    ApplicationProbeResult → Bool → Result (List ℕ) (Option ℕ)
installed_application_start (found offset) force = ok (some offset)
installed_application_start not_found force = ok none
installed_application_start (ambiguous candidates) true = ok none
installed_application_start (ambiguous candidates) false = err candidates

abbrev pub route_of : PrebuiltLinks → PrebuiltRoute
route_of usb_only = katapult_usb
route_of usb_or_can = katapult_usb_or_can

-- the installed application is elsewhere, and that was not forced
abbrev pub conflict : Option ℕ → ℕ → Bool → Option ℕ
conflict none firmware_offset force = none
conflict (some device_offset) firmware_offset force =
    if not (device_offset == firmware_offset) && not force then some device_offset else none

abbrev pub configured_start : Text → Option ℕ
unfolding target_from_kconfig
configured_start config = elim (target_from_kconfig config) [ ok start ↦ some start | err e ↦ none ]

-- `ObservedBootloader::usb_id`
abbrev pub bootloader_id : BeaconBootloader → Text
bootloader_id observed = hex_word observed.vendor_id ++ (b':' ∷ hex_word observed.product_id)

-- whether a CAN link is allowed
abbrev pub allows_can : PrebuiltLinks → Bool
allows_can usb_only = false
allows_can usb_or_can = true

module _ {S IE SE DE PE BE CE : Type 0} (devices : Devices S IE SE DE PE BE CE) (sysfs : Sysfs S IE)
    (sha1 : Bytes → Bytes) (arch : TargetArch) where
  abbrev pub SystemError : Type 0
  SystemError = SystemFlashError IE SE DE PE BE CE

  -- `.map_err(wrap)`
  abbrev pub or_else : {E A : Type 0} → (E → SystemError) → Exec S E A → Exec S SystemError A
  or_else wrap m s = let (result, s') = m s in (map_err wrap result, s')

  abbrev pub report :
      (SystemFlashProgress → S → S) → SystemFlashProgress → Exec S SystemError (Unit {0})
  report progress stage s = (ok tt, progress stage s)

  abbrev pub refused_elsewhere : PathBuf → ℕ → Option ℕ → Exec S SystemError ℕ
  refused_elsewhere sysfs_path firmware_offset none = pure firmware_offset
  refused_elsewhere sysfs_path firmware_offset (some device_offset) = do
    or_else stm32_mismatch_recovery (devices.leave_system_at_path sysfs_path device_offset)
    raise (stm32_target_mismatch firmware_offset device_offset)

  abbrev pub expected_start : Option ℕ → Exec S SystemError ℕ
  expected_start none = raise unrecognized_firmware_target
  expected_start (some offset) = pure offset

  abbrev pub selected_or : PathBuf → Bool → ℕ → Option ℕ → Option ℕ → Exec S SystemError ℕ
  selected_or sysfs_path force firmware_offset installed (some start) = pure start
  selected_or sysfs_path force firmware_offset installed none =
      refused_elsewhere sysfs_path firmware_offset (conflict installed firmware_offset force)

  -- The target is its address.
  unfoldable pub resolve_stm32_firmware_file_target :
      PathBuf → Text → Bytes → Bool → Exec S SystemError ℕ
  unfolding installed_application_start expected_application_start plausible_application_starts
      select_application_start target_from_kconfig
  resolve_stm32_firmware_file_target sysfs_path config firmware force = do
    firmware_offset ← expected_start (expected_application_start firmware)
    or_else usb_access (devices.wait_for_usb_device_access sysfs_path)
    probe ← or_else stm32_probe (devices.probe_application_start_at_path sysfs_path)
    installed ← lift (
        map_err (λ candidates. stm32_ambiguous_application candidates firmware_offset)
          (installed_application_start probe force))
    selected_or sysfs_path force firmware_offset installed (
        select_application_start (plausible_application_starts firmware) installed
          (configured_start config))

  abbrev pub stm32_target_of : PathBuf → Text → Stm32TargetSource → Exec S SystemError ℕ
  unfolding resolve_stm32_firmware_file_target target_from_kconfig
  stm32_target_of sysfs_path config (from_kconfig text) =
      lift (map_err (λ e. stm32_target) (target_from_kconfig text))
  stm32_target_of sysfs_path config (from_firmware_file firmware force) =
      resolve_stm32_firmware_file_target sysfs_path config firmware force

  abbrev pub routed :
      Text → Stm32TargetSource → SelectedUsbBootloader → Exec S SystemError SerialFlashRoute
  unfolding Samba.target_from_kconfig
  routed config source (katapult_at path device) = pure (to_katapult device)
  routed config source (stm32_dfu_at path) = do
    start ← stm32_target_of path config source
    pure (to_stm32_dfu path start)
  routed config source (picoboot_at path) = pure (to_picoboot path)
  routed config source (samba_at path device) = do
    start ← lift (map_err samba_failed (Samba.target_from_kconfig config))
    pure (to_samba device start)

  abbrev pub selected :
      ObservedUsbBootloader → McuTransport → Exec S SystemError SelectedUsbBootloader
  unfolding select_usb_bootloader
  selected observed asked s =
      (map_err (λ e. selection e asked) (select_usb_bootloader sysfs observed s), s)

  unfoldable pub resolve_serial_route :
      ObservedUsbBootloader
      → Text
      → Stm32TargetSource
      → McuTransport
      → Exec S SystemError SerialFlashRoute
  resolve_serial_route observed config source asked = do
    found' ← selected observed asked
    routed config source found'

  -- `backend.expecting_application_start(start)` if one is given
  abbrev pub adapter_for : Option ℕ → KatapultAdapter
  adapter_for none = for_target
  adapter_for (some start) = expecting_application_start for_target start

  module _ (options : SystemFlashOptions) (progress : SystemFlashProgress → S → S) where
    unfoldable pub flash_katapult_serial :
        PathBuf → Bytes → Option ℕ → Exec S SystemError FlashResult
    unfolding Adapter.flash
    flash_katapult_serial device firmware application_start = do
      report progress flashing
      exchange ← or_else katapult_open (devices.open_serial device options.baud_rate)
      or_else katapult_flash (Adapter.flash exchange (adapter_for application_start) sha1 firmware)

    unfoldable pub dispatch_serial_route : SerialFlashRoute → Bytes → Exec S SystemError FlashResult
    unfolding flash_katapult_serial Monitor.flash
    dispatch_serial_route (to_katapult device) firmware = flash_katapult_serial device firmware none
    dispatch_serial_route (to_stm32_dfu path start) firmware = do
      or_else usb_access (devices.wait_for_usb_device_access path)
      report progress flashing
      or_else stm32_dfu_failed (devices.flash_stm32 path start firmware)
    dispatch_serial_route (to_samba device start) firmware = do
      report progress flashing
      port ← or_else samba_open (devices.open_samba device)
      or_else samba_failed (Monitor.flash port start firmware)
    dispatch_serial_route (to_picoboot path) firmware = do
      or_else usb_access (devices.wait_for_usb_device_access path)
      report progress flashing
      or_else picoboot_failed (devices.flash_picoboot path firmware)

    unfoldable pub flash_observed_usb :
        ObservedUsbBootloader
        → Text
        → Bytes
        → Stm32TargetSource
        → McuTransport
        → Exec S SystemError FlashResult
    unfolding resolve_serial_route dispatch_serial_route
    flash_observed_usb observed config firmware source asked = do
      report progress bootloader_ready
      route ← resolve_serial_route observed config source asked
      dispatch_serial_route route firmware

    -- A CAN backend, which checks the UUID; `start` is expected if one is given.
    abbrev pub flash_can_backend :
        CanLink S IE → KatapultAdapter → Option ℕ → Bytes → Exec S SystemError FlashResult
    unfolding Adapter.flash
    flash_can_backend link adapter none firmware =
        or_else can_flash (Adapter.flash link.exchange adapter sha1 firmware)
    flash_can_backend link adapter (some start) firmware =
        or_else can_flash
          (Adapter.flash link.exchange (expecting_application_start adapter start) sha1 firmware)

    abbrev pub sleep_for : ℕ → Exec S SystemError (Unit {0})
    sleep_for time s = (ok tt, devices.sleep time s)

    unfoldable pub flash_uart_katapult : Text → Text → Bytes → Exec S SystemError FlashResult
    unfolding kconfig_serial_baud confirm_bootloader Adapter.flash
    flash_uart_katapult device config firmware =
        let baud_rate : ℕ = elim (kconfig_serial_baud config) [
          | none ↦ options.baud_rate
          | some rate ↦ rate
        ] in
        do
          report progress entering
          or_else uart_bootloader_request
              (devices.request_serial_bootloader (path_of device) baud_rate)
          sleep_for uart_bootloader_settle
          exchange ← or_else katapult_open (devices.open_serial (path_of device) baud_rate)
          backend ← or_else uart_katapult_not_entered (confirm_bootloader exchange)
          report progress bootloader_ready
          report progress flashing
          or_else katapult_flash (Adapter.flash exchange backend sha1 firmware)

    abbrev pub flash_usb : Text → Text → Bytes → Stm32TargetSource → Exec S SystemError FlashResult
    unfolding flash_observed_usb
    flash_usb device config firmware source = do
      report progress entering
      observed ← or_else bootloader (devices.request_and_observe (path_of device))
      flash_observed_usb observed config firmware source (serial device)

    unfoldable pub flash_serial_system :
        Text → Text → Bytes → Stm32TargetSource → Exec S SystemError FlashResult
    unfolding is_tty_without_usb_device flash_uart_katapult
    flash_serial_system device config firmware source s =
        if is_tty_without_usb_device sysfs (path_of device) s
        then flash_uart_katapult device config firmware s
        else flash_usb device config firmware source s

    abbrev pub net_root : PathBuf
    net_root = codes "sys" ∷ codes "class" ∷ codes "net" ∷ []

    -- The error says that there is no such USB device.
    unfoldable pub usb_device_path_for_can_interface : IE → Text → S → Result IE PathBuf
    unfolding usb_device_ancestor
    usb_device_path_for_can_interface not_there interface s =
        elim (sysfs.canonicalize (net_root ++ (interface ∷ [])) s) [
          | err e ↦ err e
          | ok path ↦ elim (usb_device_ancestor sysfs path s) [
            | none ↦ err not_there
            | some found' ↦ ok found'
          ]
        ]

    abbrev pub located : IE → Text → Exec S SystemError PathBuf
    unfolding usb_device_path_for_can_interface
    located not_there interface s =
        (map_err can_usb_topology (usb_device_path_for_can_interface not_there interface s), s)

    abbrev pub with_identity : PathBuf → Exec S SystemError (Option (PathBuf × UsbIdentity))
    unfolding usb_identity
    with_identity path s = (ok (some (path, usb_identity sysfs path s)), s)

    -- a bridge's place on USB and its identity, before it is asked
    abbrev pub bridge_of : IE → Text → Text → Exec S SystemError (Option (PathBuf × UsbIdentity))
    unfolding kconfig_selects_usb_can_bridge
    bridge_of not_there interface config =
        if kconfig_selects_usb_can_bridge config
        then located not_there interface >>= with_identity
        else pure none

    abbrev pub after_request :
        Text
        → ℕ
        → Text
        → Bytes
        → CanLink S IE
        → Option (PathBuf × UsbIdentity)
        → Exec S SystemError FlashResult
    unfolding flash_observed_usb connect
    after_request interface uuid config firmware link (some (path, identity)) = do
      observed ← or_else bootloader (devices.observe_at_path path identity)
      flash_observed_usb observed config firmware (from_kconfig config) (can interface uuid)
    after_request interface uuid config firmware link none = do
      sleep_for options.can_bootloader_settle
      adapter ← or_else can_bootstrap (connect link.io uuid)
      report progress bootloader_ready
      report progress flashing
      flash_can_backend link adapter none firmware

    unfoldable pub flash_can_system : IE → Text → ℕ → Text → Bytes → Exec S SystemError FlashResult
    unfolding request_can_bootloader
    flash_can_system not_there interface uuid config firmware = do
      report progress entering
      bridge ← bridge_of not_there interface config
      link ← or_else can_socket (devices.open_can interface)
      known ← or_else can_bootstrap (request_can_bootloader link.io uuid)
      after_request interface known config firmware link bridge

    unfoldable pub install_linux_host : Bytes → Exec S SystemError FlashResult
    unfolding install
    install_linux_host firmware = do
      report progress installing
      or_else linux_host
          (install devices.run devices.exists' arch options.host_mcu_unit_file firmware)

    abbrev pub flash_over :
        IE → Option McuTransport → Text → Bytes → Stm32TargetSource → Exec S SystemError FlashResult
    unfolding flash_serial_system flash_can_system
    flash_over not_there none config firmware source = raise missing_transport
    flash_over not_there (some (serial device)) config firmware source =
        flash_serial_system device config firmware source
    flash_over not_there (some (can interface uuid)) config firmware source =
        flash_can_system not_there interface uuid config firmware

    unfoldable pub flash_prepared :
        IE → PreparedBuild → Bytes → Stm32TargetSource → Exec S SystemError FlashResult
    unfolding is_linux_host install_linux_host
    flash_prepared not_there prepared firmware source =
        if is_linux_host prepared.request.kconfig
        then install_linux_host firmware
        else flash_over not_there prepared.transport prepared.request.kconfig firmware source

    unfoldable pub flash_prepared_system :
        IE → PreparedBuild → Bytes → Exec S SystemError FlashResult
    flash_prepared_system not_there prepared firmware =
        flash_prepared not_there prepared firmware (from_kconfig prepared.request.kconfig)

    unfoldable pub flash_prepared_firmware_file :
        IE → PreparedBuild → Bytes → Bool → Exec S SystemError FlashResult
    flash_prepared_firmware_file not_there prepared firmware force =
        flash_prepared not_there prepared firmware (from_firmware_file firmware force)

    -- `katapult_route`
    abbrev pub only_katapult : McuTransport → SelectedUsbBootloader → Exec S SystemError PathBuf
    only_katapult asked (katapult_at path device) = pure device
    only_katapult asked (stm32_dfu_at path) = raise (not_katapult stm32_dfu asked)
    only_katapult asked (picoboot_at path) = raise (not_katapult picoboot asked)
    only_katapult asked (samba_at path device) = raise (not_katapult samba asked)

    unfoldable pub katapult_route :
        ObservedUsbBootloader → McuTransport → Exec S SystemError PathBuf
    katapult_route observed asked = do found' ← selected observed asked; only_katapult asked found'

    unfoldable pub usb_serial_device : McuTransport → PrebuiltRoute → Exec S SystemError Text
    unfolding is_tty_without_usb_device
    usb_serial_device (serial device) route s =
        if is_tty_without_usb_device sysfs (path_of device) s
        then (err (link_refused route (serial device)), s)
        else (ok device, s)
    usb_serial_device (can interface uuid) route s =
        (err (link_refused route (can interface uuid)), s)

    unfoldable pub flash_prebuilt_can : Text → ℕ → Bytes → ℕ → Exec S SystemError FlashResult
    unfolding request_can_bootloader connect
    flash_prebuilt_can interface uuid firmware application_start = do
      report progress entering
      link ← or_else can_socket (devices.open_can interface)
      known ← or_else can_bootstrap (request_can_bootloader link.io uuid)
      sleep_for options.can_bootloader_settle
      adapter ← or_else can_bootstrap (connect link.io known)
      report progress bootloader_ready
      report progress flashing
      flash_can_backend link adapter (some application_start) firmware

    abbrev pub prebuilt_to_katapult : Text → Bytes → ℕ → Exec S SystemError FlashResult
    unfolding katapult_route flash_katapult_serial
    prebuilt_to_katapult device firmware application_start = do
      report progress entering
      observed ← or_else bootloader (devices.request_and_observe (path_of device))
      report progress bootloader_ready
      serial_device ← katapult_route observed (serial device)
      flash_katapult_serial serial_device firmware (some application_start)

    abbrev pub flash_prebuilt_usb :
        McuTransport → PrebuiltRoute → Bytes → ℕ → Exec S SystemError FlashResult
    unfolding usb_serial_device
    flash_prebuilt_usb transport route firmware application_start = do
      device ← usb_serial_device transport route
      prebuilt_to_katapult device firmware application_start

    abbrev pub flash_prebuilt_over :
        McuTransport → PrebuiltLinks → Bytes → ℕ → Exec S SystemError FlashResult
    unfolding flash_prebuilt_can
    flash_prebuilt_over (can interface uuid) links firmware application_start =
        if allows_can links
        then flash_prebuilt_can interface uuid firmware application_start
        else flash_prebuilt_usb (can interface uuid) (route_of links) firmware application_start
    flash_prebuilt_over (serial device) links firmware application_start =
        flash_prebuilt_usb (serial device) (route_of links) firmware application_start

    unfoldable pub flash_prebuilt_katapult :
        PreparedBuild → Bytes → ℕ → PrebuiltLinks → Exec S SystemError FlashResult
    flash_prebuilt_katapult prepared firmware application_start links = elim (prepared.transport) [
      | none ↦ raise missing_transport
      | some transport ↦ flash_prebuilt_over transport links firmware application_start
    ]

    unfoldable pub flash_beacon_bootloader :
        {V : Type 0} → BeaconBootloader → FirmwareImage V → Exec S SystemError FlashResult
    unfolding usb_id
    flash_beacon_bootloader observed image =
        if not (bytes_eq (bootloader_id observed) (usb_id image))
        then raise (beacon_image_mismatch (bootloader_id observed) (usb_id image))
        else do
          or_else usb_access (devices.wait_for_usb_device_access observed.sysfs_path)
          report progress flashing
          or_else beacon_dfu_failed (devices.flash_beacon observed image.payload)

    abbrev pub beacon_on : {V : Type 0} → Text → FirmwareImage V → Exec S SystemError FlashResult
    unfolding flash_beacon_bootloader
    beacon_on device image = do
      report progress entering
      observed ← or_else beacon_dfu_failed (devices.request_beacon (path_of device))
      report progress bootloader_ready
      flash_beacon_bootloader observed image

    abbrev pub flash_beacon_over :
        {V : Type 0} → McuTransport → FirmwareImage V → Exec S SystemError FlashResult
    unfolding usb_serial_device
    flash_beacon_over transport image = do
      device ← usb_serial_device transport beacon_usb
      beacon_on device image

    unfoldable pub flash_beacon :
        {V : Type 0} → PreparedBuild → FirmwareImage V → Exec S SystemError FlashResult
    flash_beacon prepared image = elim (prepared.transport) [
      | none ↦ raise missing_transport
      | some transport ↦ flash_beacon_over transport image
    ]

-- Whether Klipper may be started again after a failure (`allows_klipper_restore` of
-- src/coordinator.rs).
unfoldable pub may_restore :
    {IE SE DE PE BE CE : Type 0} → SystemFlashError IE SE DE PE BE CE → Bool
may_restore (linux_host e) = true
may_restore (link_refused route transport) = true
may_restore _ = false

unfoldable pub allows_klipper_restore :
    {C B I IE SE DE PE BE CE : Type 0}
    → FlashCoordinatorError C B I (SystemFlashError IE SE DE PE BE CE)
    → Bool
unfolding may_restore
allows_klipper_restore (coordinator e) = true
allows_klipper_restore (artifact e) = true
allows_klipper_restore (flash_failed e) = may_restore e
