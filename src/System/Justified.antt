-- ===== src/System/Justified.antt =====
-- Where a firmware file is written on an STM32 (`resolve_stm32_firmware_file_target` of
-- src/flash/system.rs).
use mathlib.Core.Path.{subst}
use aldis.Prelude.{
  ℕ, ◌≡◌, refl, ap, ◌∙◌, ◌⊎◌, inl, inr, arith, Bool, true, false, Bytes, Option, none, some,
  Option-cases, ok, map_err, lift, Exec, bind-eq-ok, pure,
}
use aldis.Prelude.Text.{Text, one_of}
use aldis.Flash.Stm32.{
  ApplicationProbeResult, found, not_found, ambiguous, expected_application_start,
  plausible_application_starts, select_application_start,
}
use aldis.Flash.Stm32.Starts.{select_application_start-exact}
use aldis.Prepare.{PathBuf}
use aldis.Builder.Built.{map_err-eq-ok, get_ok}
use aldis.System.Types.{
  stm32_mismatch_recovery, Devices, SystemFlashError, usb_access, stm32_probe,
  stm32_ambiguous_application,
}
use aldis.System.Usb.{Sysfs}
use aldis.System.Host.{TargetArch}
use aldis.System.{
  or_else, expected_start, installed_application_start, selected_or, conflict, refused_elsewhere,
  configured_start, resolve_stm32_firmware_file_target,
}

-- What the probe says, where an application may be written at the firmware's own offset.
abbrev pub IsFree : Bool → ℕ → ApplicationProbeResult → Type 0
IsFree force start probe = (probe ≡ found start) ⊎ ((probe ≡ not_found) ⊎ (force ≡ true))

-- How the address is explained by the firmware, the probe and the Kconfig.
abbrev pub IsJustified : Bytes → Text → Bool → ℕ → ApplicationProbeResult → Option ℕ → Type 0
IsJustified firmware config force start probe offset =
    ((one_of (plausible_application_starts firmware) start ≡ true)
      × ((probe ≡ found start) ⊎ (configured_start config ≡ some start)))
    ⊎ ((offset ≡ some start) × IsFree force start probe)

installed_found :
    (probe : ApplicationProbeResult) (force : Bool) (start : ℕ)
    → installed_application_start probe force ≡ ok (some start)
    → probe ≡ found start
unfolding installed_application_start
installed_found (found x) force start h = ground arith
installed_found not_found force start h = cc
installed_found (ambiguous candidates) true start h = cc
installed_found (ambiguous candidates) false start h = cc

agrees :
    (x offset : ℕ) (force : Bool)
    → conflict (some x) offset force ≡ none
    → (x ≡ offset) ⊎ (force ≡ true)
agrees x offset force h = ground arith

-- Where nothing else is installed, or that does not count.
no_conflict :
    (probe : ApplicationProbeResult) (force : Bool) (installed : Option ℕ) (offset : ℕ)
    → installed_application_start probe force ≡ ok installed
    → conflict installed offset force ≡ none
    → IsFree force offset probe
unfolding installed_application_start
no_conflict (found x) force installed offset h k =
    elim (agrees x offset force (ground (arith, h, k))) [
      | inl e ↦ inl (ap found e)
      | inr e ↦ inr (inr e)
    ]
no_conflict not_found force installed offset h k = inr (inl refl)
no_conflict (ambiguous candidates) true installed offset h k = inr (inr refl)
no_conflict (ambiguous candidates) false installed offset h k = cc

module _ {S IE SE DE PE BE CE : Type 0} (devices : Devices S IE SE DE PE BE CE) (sysfs : Sysfs S IE)
    (sha1 : Bytes → Bytes) (arch : TargetArch) where
  or_else-eq-ok :
      {E A : Type 0} (wrap : E → SystemFlashError IE SE DE PE BE CE) (m : Exec S E A) (s u : S)
      (a : A)
      → or_else devices sysfs sha1 arch wrap m s ≡ (ok a, u)
      → m s ≡ (ok a, u)
  or_else-eq-ok wrap m s u a h i = (map_err-eq-ok wrap (m s).0 (ap (λ p. p.0) h) i, (h i).1)

  refused_elsewhere-ok :
      (path : PathBuf) (offset : ℕ) (device : Option ℕ) (s u : S) (start : ℕ)
      → refused_elsewhere devices sysfs sha1 arch path offset device s ≡ (ok start, u)
      → (device ≡ none) × (offset ≡ start)
  refused_elsewhere-ok path offset none s u start h = (refl, ap (λ p. get_ok offset p.0) h)
  refused_elsewhere-ok path offset (some x) s u start h =
      let leave =
        or_else devices sysfs sha1 arch stm32_mismatch_recovery
          (devices.leave_system_at_path path x) in
      let (v, t, e, k) = bind-eq-ok leave _ s u start h in absurd (cc (k))

  expected_start-ok :
      (start : Option ℕ) (offset : ℕ) (s u : S)
      → expected_start devices sysfs sha1 arch start s ≡ (ok offset, u)
      → start ≡ some offset
  expected_start-ok none offset s u h = cc
  expected_start-ok (some x) offset s u h = ap (λ p. some (get_ok x p.0)) h

  selected_or-ok :
      (path : PathBuf) (config : Text) (firmware : Bytes) (force : Bool)
      (probe : ApplicationProbeResult) (installed : Option ℕ) (offset start : ℕ) (s u : S)
      → expected_application_start firmware ≡ some offset
      → installed_application_start probe force ≡ ok installed
      → selected_or devices sysfs sha1 arch path force offset installed
          (select_application_start
            (plausible_application_starts firmware)
            installed
            (configured_start config))
          s
        ≡ (ok start, u)
      → IsJustified firmware config force start probe (expected_application_start firmware)
  selected_or-ok path config firmware force probe installed offset start s u x h k =
      let plausible = plausible_application_starts firmware in
      let chosen = select_application_start plausible installed (configured_start config) in
      elim (Option-cases chosen) [
        | inr (a, e) ↦
            let k' : pure {E = SystemFlashError IE SE DE PE BE CE} a s ≡ (ok start, u) =
              rw e at k in
            let same : a ≡ start = ap (λ p. get_ok a p.0) k' in
            let (is_plausible, from) =
              (select_application_start-exact plausible installed (configured_start config) start).0
                (e ∙ ap some same) in
            inl (
              is_plausible,
              elim from [
                | inl i ↦ inl (installed_found probe force start (h ∙ ap ok i))
                | inr c ↦ inr c.0
              ],
            )
        | inl e ↦
            let k' = rw e at k in
            let (none', same) =
              refused_elsewhere-ok path offset (conflict installed offset force) s u start k' in
            inr (
              x ∙ ap some same,
              subst (λ n. IsFree force n probe) same
                  (no_conflict probe force installed offset h none'),
            )
      ]

  -- An address at which a firmware file may be written on an STM32 is one of the starts that the
  -- file's handlers allow, and the start that a probe of the device found or that the Kconfig
  -- configures; or it is the start below the file's reset vector, and the probe found an
  -- application there or nowhere, or the flash was forced.
  pub resolve_stm32_firmware_file_target-IsJustified :
      (path : PathBuf) (config : Text) (firmware : Bytes) (force : Bool) (start : ℕ) (s u : S)
      → resolve_stm32_firmware_file_target devices sysfs sha1 arch path config firmware force s
        ≡ (ok start, u)
      → (probe : ApplicationProbeResult) × (t : S) × (v : S)
        × (devices.probe_application_start_at_path path t ≡ (ok probe, v))
        × IsJustified firmware config force start probe (expected_application_start firmware)
  unfolding resolve_stm32_firmware_file_target
  resolve_stm32_firmware_file_target-IsJustified path config firmware force start s u h =
      let first = expected_start devices sysfs sha1 arch (expected_application_start firmware) in
      let (offset, s1, e1, h1) = bind-eq-ok first _ s u start h in
      let wait =
        or_else devices sysfs sha1 arch usb_access (devices.wait_for_usb_device_access path) in
      let (v, s2, e2, h2) = bind-eq-ok wait _ s1 u start h1 in
      let look =
        or_else devices sysfs sha1 arch stm32_probe
          (devices.probe_application_start_at_path path) in
      let (probe, s3, e3, h3) = bind-eq-ok look _ s2 u start h2 in
      let told =
        map_err (λ candidates. stm32_ambiguous_application candidates offset)
          (installed_application_start probe force) in
      let (installed, s4, e4, h4) = bind-eq-ok (lift told) _ s3 u start h3 in
      let is_installed =
        map_err-eq-ok (λ candidates. stm32_ambiguous_application candidates offset)
          (installed_application_start probe force) (ap (λ p. p.0) e4) in
      (
        probe,
        s2,
        s3,
        or_else-eq-ok stm32_probe (devices.probe_application_start_at_path path) s2 s3 probe e3,
        selected_or-ok path config firmware force probe installed offset start s4 u
            (expected_start-ok (expected_application_start firmware) offset s s1 e1) is_installed
            h4,
      )
