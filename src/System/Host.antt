-- ===== src/System/Host.antt =====
-- Installing the Linux host MCU (src/flash/linux_host.rs). The runner of commands is a parameter
-- that acts on the state of the host; the architecture is that of the build.
use aldis.Prelude.{
  ℕ, ◌+◌, ◌*◌, ◌==◌, leb, ◌&&◌, Bool, if◌then◌else◌, List, [], ◌∷◌, Bytes, length, get_or, none,
  some, Result, ok, err, Exec, ◌>>◌, pure,
}
use aldis.Prelude.Text.{Text, codes, any, starts_with}
use aldis.Flash.{FlashResult}
use aldis.Service.{BuildCommand, CommandOutput, sudo}
use aldis.Prepare.{PathBuf}

abbrev pub host_mcu_binary : Text
host_mcu_binary = codes "/usr/local/bin/klipper_mcu"

abbrev pub install_command : List Text
install_command =
    codes "/usr/bin/install" ∷ codes "-m" ∷ codes "0755" ∷ codes "/dev/stdin" ∷ host_mcu_binary ∷ []

abbrev pub restart_command : List Text
restart_command = codes "/bin/systemctl" ∷ codes "restart" ∷ codes "klipper-mcu" ∷ []

abbrev pub elfclass32 : ℕ
elfclass32 = 1

abbrev pub elfclass64 : ℕ
elfclass64 = 2

-- `cfg(target_arch)`
pub data TargetArch : Type 0 where
  aarch64 arm x86_64 : TargetArch

-- class, machine
abbrev pub host_elf_targets : TargetArch → List (ℕ × ℕ)
host_elf_targets aarch64 = (elfclass64, 183) ∷ (elfclass32, 40) ∷ []
host_elf_targets arm = (elfclass32, 40) ∷ []
host_elf_targets x86_64 = (elfclass64, 62) ∷ []

unfoldable pub is_host_elf : TargetArch → Bytes → Bool
unfolding starts_with any
is_host_elf arch firmware =
    let class = get_or firmware 4 0 in
    let machine = get_or firmware 18 0 + 256 * get_or firmware 19 0 in
    let header_len = if class == elfclass64 then 64 else 52 in
    leb 20 (length firmware)
    && starts_with (0x7f ∷ codes "ELF") firmware
    && get_or firmware 5 0 == 1
    && leb header_len (length firmware)
    && any (λ (entry : ℕ × ℕ). entry.0 == class && entry.1 == machine) (host_elf_targets arch)

pub data InstallStep : Type 0 where
  install_binary sync_disk restart_service : InstallStep

pub data LinuxHostError (CE : Type 0) : Type 0 where
  not_host_elf : LinuxHostError CE
  service_not_installed : PathBuf → LinuxHostError CE
  step_not_run : InstallStep → CE → LinuxHostError CE
  step_failed : InstallStep → CommandOutput → LinuxHostError CE

abbrev pub sync_command : BuildCommand
sync_command = record { program = codes "sync"; arguments = []; current_dir = none; stdin = none }

-- what the output of a step's command comes to
abbrev pub judged :
    {CE : Type 0} → InstallStep → Result CE CommandOutput → Result (LinuxHostError CE) (Unit {0})
judged at (ok output) = if output.success then ok tt else err (step_failed at output)
judged at (err source) = err (step_not_run at source)

module _ {S CE : Type 0} (run : BuildCommand → Exec S CE CommandOutput)
    (exists' : PathBuf → S → Bool) (arch : TargetArch) (unit_file : PathBuf) where
  unfoldable pub step : InstallStep → BuildCommand → Exec S (LinuxHostError CE) (Unit {0})
  step at command s = let (result, s') = run command s in (judged at result, s')

  abbrev pub expect_elf : Bytes → Exec S (LinuxHostError CE) (Unit {0})
  expect_elf firmware s = (if is_host_elf arch firmware then ok tt else err not_host_elf, s)

  abbrev pub expect_unit : Exec S (LinuxHostError CE) (Unit {0})
  expect_unit s = (if exists' unit_file s then ok tt else err (service_not_installed unit_file), s)

  unfoldable pub install : Bytes → Exec S (LinuxHostError CE) FlashResult
  install firmware = do
    expect_elf firmware
    expect_unit
    step install_binary (sudo install_command (some firmware))
    step sync_disk sync_command
    step restart_service (sudo restart_command none)
    pure (record { reported_pages = none; padded_bytes = length firmware })
