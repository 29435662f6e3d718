-- ===== src/System/Restore.antt =====
-- After which failures no device has been touched (src/flash/system.rs with
-- `allows_klipper_restore` of src/coordinator.rs).
use aldis.Prelude.{
  ℕ, ◌≡◌, refl, ◌∙◌, inl, inr, Bool, true, false, if◌then◌else◌, Bool-cases, Bytes, Option, none,
  some, Result, ok, err, continue, Exec, ◌>>=◌, raise,
}
use aldis.Prelude.Text.{Text}
use aldis.Prelude.Keeps.{Keeps, bind-Keeps}
use aldis.Coordinator.{SystemFlashProgress, installing}
use aldis.Fleet.{McuTransport, serial, can}
use aldis.Flash.{FlashResult}
use aldis.System.Types.{
  PrebuiltRoute, missing_transport, beacon_usb, linux_host, Devices, SystemFlashOptions,
  SystemFlashError, Stm32TargetSource,
}
use aldis.Vendors.Beacon.Image.{FirmwareImage}
use aldis.Prebuilt.Requests.{PrebuiltLinks}
use aldis.Prepare.{PreparedBuild}
use aldis.Builder.{is_linux_host}
use aldis.System.Usb.{Sysfs}
use aldis.System.Host.{
  TargetArch, InstallStep, LinuxHostError, step, install, expect_elf, expect_unit, install_binary,
  sync_disk, restart_service, install_command, restart_command, sync_command,
}
use aldis.Service.{BuildCommand, sudo}
use aldis.System.Entry.{is_tty_without_usb_device}
use aldis.System.{
  install_linux_host, flash_prebuilt_usb, flash_prebuilt_over, flash_prebuilt_katapult,
  flash_beacon_over, flash_beacon, route_of, allows_can, usb_serial_device, flash_prepared,
  prebuilt_to_katapult, beacon_on, may_restore, or_else, report, flash_serial_system, path_of,
  flash_can_system, flash_over, flash_prebuilt_can,
}
use aldis.System.Final.{
  Fails, Never, Final, can-Final, prebuilt_can-Final, serial_system-Final, to_katapult-Final,
  beacon_on-Final,
}

-- What may be flashed: a build or a file, prebuilt firmware, or a Beacon's image.
pub data Attempt (V : Type 0) : Type 0 where
  build : Bytes → Stm32TargetSource → Attempt V
  -- image, application start, links
  prebuilt : Bytes → ℕ → PrebuiltLinks → Attempt V
  beacon : FirmwareImage V → Attempt V

module _ {S IE SE DE PE BE CE : Type 0} (devices : Devices S IE SE DE PE BE CE) (sysfs : Sysfs S IE)
    (sha1 : Bytes → Bytes) (arch : TargetArch) (options : SystemFlashOptions)
    (progress : SystemFlashProgress → S → S) where
  unfoldable pub attempt :
      {V : Type 0}
      → IE
      → PreparedBuild
      → Attempt V
      → Exec S (SystemFlashError IE SE DE PE BE CE) FlashResult
  attempt not_there prepared (build firmware source) =
      flash_prepared devices sysfs sha1 arch options progress not_there prepared firmware source
  attempt not_there prepared (prebuilt firmware start links) =
      flash_prebuilt_katapult devices sysfs sha1 arch options progress prepared firmware start links
  attempt not_there prepared (beacon image) =
      flash_beacon devices sysfs sha1 arch options progress prepared image

module _ {S IE SE DE PE BE CE : Type 0} (devices : Devices S IE SE DE PE BE CE) (sysfs : Sysfs S IE)
    (sha1 : Bytes → Bytes) (arch : TargetArch) (options : SystemFlashOptions)
    (progress : SystemFlashProgress → S → S) (P : S → Type 0) where
  -- A failure of this step after which Klipper may be started again has kept `P`.
  abbrev pub Restored : {A : Type 0} → Result (SystemFlashError IE SE DE PE BE CE) A → S → Type 0
  Restored (ok a) t = Unit {0}
  Restored (err e) t = may_restore e ≡ true → P t

  abbrev pub Restores : {A : Type 0} → Exec S (SystemFlashError IE SE DE PE BE CE) A → Type 0
  Restores m = (s : S) → P s → Restored (m s).0 (m s).1

  final-Restored :
      {A : Type 0} (r : Result (SystemFlashError IE SE DE PE BE CE) A) (t : S)
      → Fails may_restore r
      → Restored r t
  final-Restored (ok a) t h = tt
  final-Restored (err e) t h = λ allowed. absurd (cc (h, allowed))

  kept-Restored :
      {A : Type 0} (r : Result (SystemFlashError IE SE DE PE BE CE) A) (t : S) → P t → Restored r t
  kept-Restored (ok a) t p = tt
  kept-Restored (err e) t p = λ allowed. p

  Final-Restores :
      {A : Type 0} (m : Exec S (SystemFlashError IE SE DE PE BE CE) A)
      → Final devices sysfs sha1 arch m
      → Restores m
  unfolding Never
  Final-Restores m h s p = final-Restored (m s).0 (m s).1 (h s)

  continue-Restores :
      {A B : Type 0} (r : Result (SystemFlashError IE SE DE PE BE CE) A)
      (f : A → Exec S (SystemFlashError IE SE DE PE BE CE) B)
      → ((a : A) → Restores (f a))
      → Restores (continue r f)
  continue-Restores (ok a) f k s p = k a s p
  continue-Restores (err e) f k s p = λ allowed. p

  bind-Restores :
      {A B : Type 0} (m : Exec S (SystemFlashError IE SE DE PE BE CE) A)
      (f : A → Exec S (SystemFlashError IE SE DE PE BE CE) B)
      → Keeps P m
      → ((a : A) → Restores (f a))
      → Restores (m >>= f)
  bind-Restores m f h k s p = continue-Restores (m s).0 f k (m s).1 (h s p)

  module _ (reports : (stage : SystemFlashProgress) (s : S) → P s → P (progress stage s))
      (runs : (command : BuildCommand) → Keeps P (devices.run command)) where
    abbrev installer : InstallStep → BuildCommand → Exec S (LinuxHostError CE) (Unit {0})
    installer = step devices.run devices.exists' arch options.host_mcu_unit_file

    step-Keeps : (at : InstallStep) (command : BuildCommand) → Keeps P (installer at command)
    unfolding step
    step-Keeps at command s p = runs command s p

    install-Keeps :
        (firmware : Bytes)
        → Keeps P (install devices.run devices.exists' arch options.host_mcu_unit_file firmware)
    unfolding install
    install-Keeps firmware =
        bind-Keeps P
          (expect_elf devices.run devices.exists' arch options.host_mcu_unit_file firmware) _
          (λ s p. p)
          (λ u.
            bind-Keeps P (expect_unit devices.run devices.exists' arch options.host_mcu_unit_file) _
              (λ s p. p)
              (λ u.
                bind-Keeps P (installer install_binary (sudo install_command (some firmware))) _
                  (step-Keeps install_binary (sudo install_command (some firmware)))
                  (λ u.
                    bind-Keeps P (installer sync_disk sync_command) _
                      (step-Keeps sync_disk sync_command)
                      (λ u.
                        bind-Keeps P (installer restart_service (sudo restart_command none)) _
                          (step-Keeps restart_service (sudo restart_command none)) (λ u s p. p)))))

    host-Restores :
        (firmware : Bytes)
        → Restores (install_linux_host devices sysfs sha1 arch options progress firmware)
    unfolding install_linux_host
    host-Restores firmware =
        let put = install devices.run devices.exists' arch options.host_mcu_unit_file firmware in
        let wrapped_put = or_else devices sysfs sha1 arch linux_host put in
        bind-Restores (report devices sysfs sha1 arch progress installing) (λ u. wrapped_put)
          (λ s p. reports installing s p)
          (λ u s p. kept-Restored (wrapped_put s).0 (wrapped_put s).1 (install-Keeps firmware s p))

    over-Restores :
        (not_there : IE) (transport : Option McuTransport) (config : Text) (firmware : Bytes)
        (source : Stm32TargetSource)
        → Restores (
            flash_over devices sysfs sha1 arch options progress not_there transport config firmware
              source)
    unfolding flash_over flash_serial_system may_restore
    over-Restores not_there none config firmware source = λ s p allowed. absurd (cc (allowed))
    over-Restores not_there (some (serial device)) config firmware source =
        Final-Restores
          (flash_serial_system devices sysfs sha1 arch options progress device config firmware
            source)
          (serial_system-Final devices sysfs sha1 arch options progress device config firmware
            source)
    over-Restores not_there (some (can interface uuid)) config firmware source =
        Final-Restores
          (flash_can_system devices sysfs sha1 arch options progress not_there interface uuid config
            firmware)
          (can-Final devices sysfs sha1 arch options progress not_there interface uuid config
            firmware)

    usb_serial_device-Keeps :
        (transport : McuTransport) (route : PrebuiltRoute)
        → Keeps P (usb_serial_device devices sysfs sha1 arch options progress transport route)
    unfolding usb_serial_device
    usb_serial_device-Keeps (serial device) route s p =
        elim (Bool-cases (is_tty_without_usb_device sysfs (path_of device) s)) [
          | inl tty ↦ rw tty p
          | inr usb ↦ rw usb p
        ]
    usb_serial_device-Keeps (can interface uuid) route s p = p

    prebuilt_usb-Restores :
        (transport : McuTransport) (route : PrebuiltRoute) (firmware : Bytes) (start : ℕ)
        → Restores (
            flash_prebuilt_usb devices sysfs sha1 arch options progress transport route firmware
              start)
    unfolding flash_prebuilt_usb
    prebuilt_usb-Restores transport route firmware start =
        bind-Restores (usb_serial_device devices sysfs sha1 arch options progress transport route) _
          (usb_serial_device-Keeps transport route)
          (λ device.
            Final-Restores
              (prebuilt_to_katapult devices sysfs sha1 arch options progress device firmware start)
              (to_katapult-Final devices sysfs sha1 arch options progress device firmware start))

    if-Restores :
        {A : Type 0} (b : Bool) (m n : Exec S (SystemFlashError IE SE DE PE BE CE) A)
        → Restores m
        → Restores n
        → Restores (if b then m else n)
    if-Restores true m n h k = h
    if-Restores false m n h k = k

    prebuilt_over-Restores :
        (transport : McuTransport) (links : PrebuiltLinks) (firmware : Bytes) (start : ℕ)
        → Restores (
            flash_prebuilt_over devices sysfs sha1 arch options progress transport links firmware
              start)
    unfolding flash_prebuilt_over
    prebuilt_over-Restores (serial device) links firmware start =
        prebuilt_usb-Restores (serial device) (route_of links) firmware start
    prebuilt_over-Restores (can interface uuid) links firmware start =
        let over_can =
          flash_prebuilt_can devices sysfs sha1 arch options progress interface uuid firmware
            start in
        if-Restores (allows_can links) over_can
          (flash_prebuilt_usb devices sysfs sha1 arch options progress (can interface uuid)
            (route_of links) firmware start)
          (Final-Restores over_can (
            prebuilt_can-Final devices sysfs sha1 arch options progress interface uuid firmware
              start))
          (prebuilt_usb-Restores (can interface uuid) (route_of links) firmware start)

    missing-Restores : Restores {A = FlashResult} (raise missing_transport)
    unfolding may_restore
    missing-Restores s p allowed = absurd (cc (allowed))

    prebuilt-Restores :
        (transport : Option McuTransport) (prepared : PreparedBuild) (firmware : Bytes) (start : ℕ)
        (links : PrebuiltLinks)
        → prepared.transport ≡ transport
        → Restores (
            flash_prebuilt_katapult devices sysfs sha1 arch options progress prepared firmware start
              links)
    unfolding flash_prebuilt_katapult
    prebuilt-Restores none prepared firmware start links e = rw e missing-Restores
    prebuilt-Restores (some transport) prepared firmware start links e =
        rw e (prebuilt_over-Restores transport links firmware start)

    beacon_over-Restores :
        {V : Type 0} (transport : McuTransport) (image : FirmwareImage V)
        → Restores (flash_beacon_over devices sysfs sha1 arch options progress transport image)
    unfolding flash_beacon_over
    beacon_over-Restores transport image =
        bind-Restores
          (usb_serial_device devices sysfs sha1 arch options progress transport beacon_usb) _
          (usb_serial_device-Keeps transport beacon_usb)
          (λ device.
            Final-Restores (beacon_on devices sysfs sha1 arch options progress device image)
              (beacon_on-Final devices sysfs sha1 arch options progress device image))

    beacon-Restores :
        {V : Type 0} (transport : Option McuTransport) (prepared : PreparedBuild)
        (image : FirmwareImage V)
        → prepared.transport ≡ transport
        → Restores (flash_beacon devices sysfs sha1 arch options progress prepared image)
    unfolding flash_beacon
    beacon-Restores none prepared image e = rw e missing-Restores
    beacon-Restores (some transport) prepared image e = rw e (beacon_over-Restores transport image)

    attempt-Restores :
        {V : Type 0} (not_there : IE) (prepared : PreparedBuild) (way : Attempt V)
        → Restores (attempt devices sysfs sha1 arch options progress not_there prepared way)
    unfolding flash_prepared attempt
    attempt-Restores not_there prepared (build firmware source) =
        if-Restores (is_linux_host prepared.request.kconfig)
          (install_linux_host devices sysfs sha1 arch options progress firmware)
          (flash_over devices sysfs sha1 arch options progress not_there prepared.transport
            prepared.request.kconfig firmware source)
          (host-Restores firmware)
          (over-Restores not_there prepared.transport prepared.request.kconfig firmware source)
    attempt-Restores not_there prepared (prebuilt firmware start links) =
        prebuilt-Restores prepared.transport prepared firmware start links refl
    attempt-Restores not_there prepared (beacon image) =
        beacon-Restores prepared.transport prepared image refl

    may_restore-err :
        {A : Type 0} (x e : SystemFlashError IE SE DE PE BE CE)
        → ◌≡◌ {A = Result (SystemFlashError IE SE DE PE BE CE) A} (err x) (err e)
        → may_restore x ≡ may_restore e
    may_restore-err x e k = cc (k)

    err-Restored :
        {A : Type 0} (r : Result (SystemFlashError IE SE DE PE BE CE) A) (t : S)
        (e : SystemFlashError IE SE DE PE BE CE)
        → Restored r t
        → r ≡ err e
        → may_restore e ≡ true
        → P t
    err-Restored (ok a) t e h k allowed = cc (k)
    err-Restored (err x) t e h k allowed = h (may_restore-err x e k ∙ allowed)

    -- Let `P` be anything about the host that reporting progress and running a command keep. If
    -- flashing a build, a file, prebuilt firmware or a Beacon's image fails, and the failure allows
    -- Klipper to be started again, then `P` still holds.
    pub attempt-restored :
        {V : Type 0} (not_there : IE) (prepared : PreparedBuild) (way : Attempt V) (s : S)
        (e : SystemFlashError IE SE DE PE BE CE)
        → P s
        → (attempt devices sysfs sha1 arch options progress not_there prepared way s).0 ≡ err e
        → may_restore e ≡ true
        → P (attempt devices sysfs sha1 arch options progress not_there prepared way s).1
    attempt-restored not_there prepared way s e p h allowed =
        let (r, t) = attempt devices sysfs sha1 arch options progress not_there prepared way s in
        err-Restored r t e (attempt-Restores not_there prepared way s p) h allowed
