-- ===== src/Builder/Extension.antt =====
-- The extension of what Klipper builds (src/build.rs), by the lines of the Kconfig.
use aldis.Prelude.{Bool, true, false, Bool-cases, bytes_eq, ◌≡◌, refl, ◌⊎◌, inl, inr}
use aldis.Prelude.Text.{Text, codes, any, trim, lines}
use aldis.Builder.{is_linux_host, output_extension}

-- a line of the Kconfig, without the space around it
abbrev pub HasLine : Text → Text → Type 0
HasLine kconfig setting = any (λ line. bytes_eq (trim line) setting) (lines kconfig) ≡ true

abbrev pub LacksLine : Text → Text → Type 0
LacksLine kconfig setting = any (λ line. bytes_eq (trim line) setting) (lines kconfig) ≡ false

-- What Klipper's build is named for a Kconfig: an ELF file for a host, a UF2 image for an RP2040 that
-- has no bootloader of 16 KiB, and otherwise a plain image.
abbrev pub IsExtension : Text → Text → Type 0
IsExtension kconfig extension =
    (HasLine kconfig (codes "CONFIG_MACH_LINUX=y") × (extension ≡ codes "elf"))
    ⊎ ((LacksLine kconfig (codes "CONFIG_MACH_LINUX=y")
          × HasLine kconfig (codes "CONFIG_MACH_RPXXXX=y")
          × LacksLine kconfig (codes "CONFIG_RPXXXX_FLASH_START_4000=y")
          × (extension ≡ codes "uf2"))
        ⊎ (LacksLine kconfig (codes "CONFIG_MACH_LINUX=y")
            × (LacksLine kconfig (codes "CONFIG_MACH_RPXXXX=y")
                ⊎ HasLine kconfig (codes "CONFIG_RPXXXX_FLASH_START_4000=y"))
            × (extension ≡ codes "bin")))

pub output_extension-IsExtension : (kconfig : Text) → IsExtension kconfig (output_extension kconfig)
unfolding output_extension is_linux_host
output_extension-IsExtension kconfig =
    let has : Text → Bool = λ setting. any (λ line. bytes_eq (trim line) setting) (lines kconfig) in
    elim (Bool-cases (has (codes "CONFIG_MACH_LINUX=y"))) [
      | inl host ↦ inl (host, rw (host, output_extension) refl)
      | inr other ↦ elim (Bool-cases (has (codes "CONFIG_MACH_RPXXXX=y"))) [
        | inr no' ↦ inr (inr (other, inl no', rw (other, no', output_extension) refl))
        | inl rp ↦ elim (Bool-cases (has (codes "CONFIG_RPXXXX_FLASH_START_4000=y"))) [
          | inl boot ↦ inr (inr (other, inr boot, rw (other, rp, boot, output_extension) refl))
          | inr bare ↦ inr (inl (other, rp, bare, rw (other, rp, bare, output_extension) refl))
        ]
      ]
    ]
