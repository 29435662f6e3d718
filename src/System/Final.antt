-- ===== src/System/Final.antt =====
-- Failures of the routes of src/flash/system.rs that ask an MCU to enter its bootloader: none allows
-- Klipper to be started again.
use aldis.Prelude.{
  ℕ, ◌≡◌, refl, Bool, true, false, if◌then◌else◌, Bytes, Option, none, some, Result, ok, err,
  map_err, lift, continue, Exec, ◌>>=◌, pure,
}
use aldis.Prelude.Text.{Text}
use aldis.Prepare.{PathBuf}
use aldis.Coordinator.{SystemFlashProgress}
use aldis.Fleet.{McuTransport, kconfig_selects_usb_can_bridge}
use aldis.System.Types.{
  can_usb_topology, to_katapult, to_stm32_dfu, to_picoboot, to_samba, CanLink, selection,
  from_kconfig, from_firmware_file, Devices, SystemFlashOptions, BeaconBootloader, SystemFlashError,
  Stm32TargetSource, SerialFlashRoute,
}
use aldis.Katapult.Adapter.{KatapultAdapter}
use aldis.Vendors.Beacon.Image.{FirmwareImage}
use aldis.System.Usb.{
  Sysfs, UsbIdentity, ObservedUsbBootloader, SelectedUsbBootloader, katapult_at, stm32_dfu_at,
  picoboot_at, samba_at, select_usb_bootloader,
}
use aldis.System.Host.{TargetArch}
use aldis.System.Entry.{is_tty_without_usb_device}
use aldis.System.{
  prebuilt_to_katapult, beacon_on, located, with_identity, may_restore, or_else, refused_elsewhere,
  resolve_stm32_firmware_file_target, expected_start, selected_or, conflict, stm32_target_of,
  routed, selected, resolve_serial_route, flash_katapult_serial, dispatch_serial_route,
  flash_observed_usb, flash_can_backend, flash_uart_katapult, flash_usb, flash_serial_system,
  path_of, bridge_of, after_request, flash_can_system, only_katapult, katapult_route,
  flash_prebuilt_can, flash_beacon_bootloader, usb_device_path_for_can_interface,
}

module _ {E : Type 0} (test : E → Bool) where
  -- A result that is no failure which passes the test.
  abbrev pub Fails : {A : Type 0} → Result E A → Type 0
  Fails (ok a) = Unit {0}
  Fails (err e) = test e ≡ false

  -- A step of which no failure passes the test.
  unfoldable pub Never : {S A : Type 0} → Exec S E A → Type 0
  Never {S} m = (s : S) → Fails (m s).0

  continue-Never :
      {S A B : Type 0} (r : Result E A) (f : A → Exec S E B)
      → Fails r
      → ((a : A) → Never (f a))
      → Never (continue r f)
  unfolding Never
  continue-Never (ok a) f h k s = k a s
  continue-Never (err e) f h k s = h

  pub bind-Never :
      {S A B : Type 0} (m : Exec S E A) (f : A → Exec S E B)
      → Never m
      → ((a : A) → Never (f a))
      → Never (m >>= f)
  unfolding Never
  bind-Never m f h k s = continue-Never (m s).0 f (h s) k (m s).1

  pub still-Never : {S A : Type 0} (r : Result E A) (m : S → S) → Fails r → Never (λ s. (r, m s))
  unfolding Never
  still-Never r m h s = h

  mapped-Fails :
      {D A : Type 0} (wrap : D → E) (r : Result D A)
      → ((x : D) → test (wrap x) ≡ false)
      → Fails (map_err wrap r)
  mapped-Fails wrap (ok a) h = tt
  mapped-Fails wrap (err x) h = h x

  if-Never :
      {S A : Type 0} (b : Bool) (m n : Exec S E A) → Never m → Never n → Never (if b then m else n)
  if-Never true m n h k = h
  if-Never false m n h k = k

  if-Fails :
      {S A : Type 0} (b : Bool) (m n : Exec S E A) (s : S)
      → Fails (m s).0
      → Fails (n s).0
      → Fails (if b then m s else n s).0
  if-Fails true m n s h k = h
  if-Fails false m n s h k = k

  lifted-Never :
      (S : Type 0) {D A : Type 0} (wrap : D → E) (r : Result D A)
      → ((x : D) → test (wrap x) ≡ false)
      → Never (lift {S = S} (map_err wrap r))
  unfolding Never
  lifted-Never S wrap r h s = mapped-Fails wrap r h

module _ {S IE SE DE PE BE CE : Type 0} (devices : Devices S IE SE DE PE BE CE) (sysfs : Sysfs S IE)
    (sha1 : Bytes → Bytes) (arch : TargetArch) where
  abbrev pub Final : {A : Type 0} → Exec S (SystemFlashError IE SE DE PE BE CE) A → Type 0
  Final m = Never may_restore m

  pub wrapped :
      {E A : Type 0} (wrap : E → SystemFlashError IE SE DE PE BE CE) (m : Exec S E A)
      → ((e : E) → may_restore (wrap e) ≡ false)
      → Final (or_else devices sysfs sha1 arch wrap m)
  unfolding Never
  wrapped wrap m h s = mapped-Fails may_restore wrap (m s).0 h

  refused_elsewhere-Final :
      (path : PathBuf) (offset : ℕ) (device : Option ℕ)
      → Final (refused_elsewhere devices sysfs sha1 arch path offset device)
  unfolding may_restore
  refused_elsewhere-Final path offset none = still-Never may_restore _ _ tt
  refused_elsewhere-Final path offset (some start) = search (bind-Never, wrapped, still-Never)

  expected-Final : (start : Option ℕ) → Final (expected_start devices sysfs sha1 arch start)
  unfolding may_restore
  expected-Final none = still-Never may_restore _ _ refl
  expected-Final (some offset) = still-Never may_restore _ _ tt

  selected-Final :
      (path : PathBuf) (force : Bool) (offset : ℕ) (installed start : Option ℕ)
      → Final (selected_or devices sysfs sha1 arch path force offset installed start)
  selected-Final path force offset installed none =
      refused_elsewhere-Final path offset (conflict installed offset force)
  selected-Final path force offset installed (some start) = still-Never may_restore _ _ tt

  resolve-Final :
      (path : PathBuf) (config : Text) (firmware : Bytes) (force : Bool)
      → Final
          (resolve_stm32_firmware_file_target devices sysfs sha1 arch path config firmware force)
  unfolding resolve_stm32_firmware_file_target may_restore
  resolve-Final path config firmware force =
      search (bind-Never, wrapped, lifted-Never, expected-Final, selected-Final)

  target-Final :
      (path : PathBuf) (config : Text) (source : Stm32TargetSource)
      → Final (stm32_target_of devices sysfs sha1 arch path config source)
  unfolding may_restore Never stm32_target_of
  target-Final path config (from_kconfig text) = search (lifted-Never)
  target-Final path config (from_firmware_file firmware force) =
      resolve-Final path config firmware force

  routed-Final :
      (config : Text) (source : Stm32TargetSource) (choice : SelectedUsbBootloader)
      → Final (routed devices sysfs sha1 arch config source choice)
  unfolding may_restore Never routed
  routed-Final config source (katapult_at path device) = λ s. tt
  routed-Final config source (stm32_dfu_at path) = search (bind-Never, still-Never, target-Final)
  routed-Final config source (picoboot_at path) = λ s. tt
  routed-Final config source (samba_at path device) = search (bind-Never, still-Never, lifted-Never)

  selected_at-Final :
      (observed : ObservedUsbBootloader) (asked : McuTransport)
      → Final (selected devices sysfs sha1 arch observed asked)
  unfolding may_restore Never selected
  selected_at-Final observed asked s =
      mapped-Fails may_restore (λ e. selection e asked) (select_usb_bootloader sysfs observed s)
        (λ e. refl)

  route-Final :
      (observed : ObservedUsbBootloader) (config : Text) (source : Stm32TargetSource)
      (asked : McuTransport)
      → Final (resolve_serial_route devices sysfs sha1 arch observed config source asked)
  unfolding resolve_serial_route
  route-Final observed config source asked = search (bind-Never, selected_at-Final, routed-Final)

  module _ (options : SystemFlashOptions) (progress : SystemFlashProgress → S → S) where
    pub serial-Final :
        (device : PathBuf) (firmware : Bytes) (start : Option ℕ)
        → Final
            (flash_katapult_serial devices sysfs sha1 arch options progress device firmware start)
    unfolding flash_katapult_serial may_restore Never
    serial-Final device firmware start = search (bind-Never, wrapped, still-Never)

    dispatch-Final :
        (route : SerialFlashRoute) (firmware : Bytes)
        → Final (dispatch_serial_route devices sysfs sha1 arch options progress route firmware)
    unfolding dispatch_serial_route may_restore Never
    dispatch-Final (to_katapult device) firmware = serial-Final device firmware none
    dispatch-Final (to_stm32_dfu path start) firmware = search (bind-Never, wrapped)
    dispatch-Final (to_samba device start) firmware = search (bind-Never, wrapped, still-Never)
    dispatch-Final (to_picoboot path) firmware = search (bind-Never, wrapped)

    observed-Final :
        (observed : ObservedUsbBootloader) (config : Text) (firmware : Bytes)
        (source : Stm32TargetSource) (asked : McuTransport)
        → Final (
            flash_observed_usb devices sysfs sha1 arch options progress observed config firmware
              source asked)
    unfolding flash_observed_usb may_restore Never
    observed-Final observed config firmware source asked =
        search (bind-Never, still-Never, route-Final, dispatch-Final)

    backend-Final :
        (link : CanLink S IE) (adapter : KatapultAdapter) (start : Option ℕ) (firmware : Bytes)
        → Final
            (flash_can_backend devices sysfs sha1 arch options progress link adapter start firmware)
    unfolding may_restore Never flash_can_backend
    backend-Final link adapter none firmware = search (wrapped)
    backend-Final link adapter (some start) firmware = search (wrapped)

    uart-Final :
        (device config : Text) (firmware : Bytes)
        → Final
            (flash_uart_katapult devices sysfs sha1 arch options progress device config firmware)
    unfolding flash_uart_katapult may_restore Never
    uart-Final device config firmware = search (bind-Never, wrapped, still-Never) depth 9

    usb-Final :
        (device config : Text) (firmware : Bytes) (source : Stm32TargetSource)
        → Final (flash_usb devices sysfs sha1 arch options progress device config firmware source)
    unfolding flash_usb may_restore Never
    usb-Final device config firmware source =
        search (bind-Never, wrapped, still-Never, observed-Final)

    pub serial_system-Final :
        (device config : Text) (firmware : Bytes) (source : Stm32TargetSource)
        → Final (
            flash_serial_system devices sysfs sha1 arch options progress device config firmware
              source)
    unfolding flash_serial_system Never
    serial_system-Final device config firmware source s =
        if-Fails may_restore (is_tty_without_usb_device sysfs (path_of device) s)
          (flash_uart_katapult devices sysfs sha1 arch options progress device config firmware)
          (flash_usb devices sysfs sha1 arch options progress device config firmware source) s
          (uart-Final device config firmware s) (usb-Final device config firmware source s)

    bridge-Final :
        (not_there : IE) (interface config : Text)
        → Final (bridge_of devices sysfs sha1 arch options progress not_there interface config)
    unfolding bridge_of may_restore Never located with_identity
    bridge-Final not_there interface config =
        if-Never may_restore (kconfig_selects_usb_can_bridge config)
          (located devices sysfs sha1 arch options progress not_there interface
            >>= with_identity devices sysfs sha1 arch options progress)
          (pure none)
          (bind-Never may_restore
            (located devices sysfs sha1 arch options progress not_there interface)
            (with_identity devices sysfs sha1 arch options progress)
            (λ s.
              mapped-Fails may_restore can_usb_topology
                (usb_device_path_for_can_interface devices sysfs sha1 arch options progress
                  not_there interface s)
                (λ e. refl))
            (λ path s. tt))
          (λ s. tt)

    after-Final :
        (interface : Text) (uuid : ℕ) (config : Text) (firmware : Bytes) (link : CanLink S IE)
        (bridge : Option (PathBuf × UsbIdentity))
        → Final (
            after_request devices sysfs sha1 arch options progress interface uuid config firmware
              link bridge)
    unfolding after_request may_restore Never
    after-Final interface uuid config firmware link (some (path, identity)) =
        search (bind-Never, wrapped, observed-Final)
    after-Final interface uuid config firmware link none =
        search (bind-Never, wrapped, still-Never, backend-Final)

    pub can-Final :
        (not_there : IE) (interface : Text) (uuid : ℕ) (config : Text) (firmware : Bytes)
        → Final (
            flash_can_system devices sysfs sha1 arch options progress not_there interface uuid
              config firmware)
    unfolding flash_can_system may_restore Never
    can-Final not_there interface uuid config firmware =
        search (bind-Never, wrapped, still-Never, bridge-Final, after-Final)

    pub prebuilt_can-Final :
        (interface : Text) (uuid : ℕ) (firmware : Bytes) (start : ℕ)
        → Final (
            flash_prebuilt_can devices sysfs sha1 arch options progress interface uuid firmware
              start)
    unfolding flash_prebuilt_can may_restore Never
    prebuilt_can-Final interface uuid firmware start =
        search (bind-Never, wrapped, still-Never, backend-Final) depth 9

    only_katapult-Final :
        (asked : McuTransport) (choice : SelectedUsbBootloader)
        → Final (only_katapult devices sysfs sha1 arch options progress asked choice)
    unfolding may_restore
    only_katapult-Final asked (katapult_at path device) = still-Never may_restore _ _ tt
    only_katapult-Final asked (stm32_dfu_at path) = still-Never may_restore _ _ refl
    only_katapult-Final asked (picoboot_at path) = still-Never may_restore _ _ refl
    only_katapult-Final asked (samba_at path device) = still-Never may_restore _ _ refl

    pub katapult_route-Final :
        (observed : ObservedUsbBootloader) (asked : McuTransport)
        → Final (katapult_route devices sysfs sha1 arch options progress observed asked)
    unfolding katapult_route
    katapult_route-Final observed asked =
        search (bind-Never, selected_at-Final, only_katapult-Final)

    pub to_katapult-Final :
        (device : Text) (firmware : Bytes) (start : ℕ)
        → Final
            (prebuilt_to_katapult devices sysfs sha1 arch options progress device firmware start)
    unfolding prebuilt_to_katapult may_restore Never
    to_katapult-Final device firmware start =
        search (bind-Never, wrapped, still-Never, katapult_route-Final, serial-Final) depth 9

    beacon-Final :
        {V : Type 0} (observed : BeaconBootloader) (image : FirmwareImage V)
        → Final (flash_beacon_bootloader devices sysfs sha1 arch options progress observed image)
    unfolding flash_beacon_bootloader may_restore Never
    beacon-Final observed image = search (bind-Never, wrapped, if-Never) depth 9

    pub beacon_on-Final :
        {V : Type 0} (device : Text) (image : FirmwareImage V)
        → Final (beacon_on devices sysfs sha1 arch options progress device image)
    unfolding beacon_on may_restore Never
    beacon_on-Final device image = search (bind-Never, wrapped, still-Never, beacon-Final) depth 9
