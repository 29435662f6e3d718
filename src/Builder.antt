-- ===== src/Builder.antt =====
-- `KlipperBuilder` (src/build.rs): the Kconfig is written into the checkout, make expands it and
-- builds, and the artifact is copied. The files of the host and the runner of make are parameters
-- that act on its state; a path is the list of its components, and the text of a path, which is
-- missing if it is not UTF-8, is a parameter.
pub mod Built
pub mod Extension
mod Examples
use aldis.Prelude.{
  ℕ, zero, suc, ◌+◌, ◌/◌, ◌%◌, ltb, ◌==◌, ◌&&◌, not, Bool, true, false, if◌then◌else◌, List, [],
  ◌∷◌, ◌++◌, bytes_eq, Option, none, some, Result, ok, err, map_err, lift, Exec, ◌>>=◌, ◌>>◌, pure,
  raise,
}
use aldis.Prelude.Text.{Text, codes, any, lines, trim, is_empty}
use aldis.Kconfig.{InvalidKconfig, validate}
use aldis.Service.{BuildCommand, CommandOutput}
use aldis.Prepare.{PathBuf, BuildRequest}
use aldis.Coordinator.{BuildArtifact, BuildProgress, configuring, compiling}

-- what was attempted with a file
pub data Action : Type 0 where
  create_config_directory write_kconfig write_checkout_kconfig read_expanded record_expanded
        discard_version_object create_artifact_directory copy_artifact read_artifact :
      Action

pub data InvalidRequest : Type 0 where
  config_path_without_parent artifact_path_without_parent checkout_is_not_utf8 : InvalidRequest

pub data BuildError (CE IE : Type 0) : Type 0 where
  invalid_request : InvalidRequest → BuildError CE IE
  untrusted : InvalidKconfig → BuildError CE IE
  io : Action → IE → BuildError CE IE
  command_port : BuildCommand → CE → BuildError CE IE
  command_failed : BuildCommand → CommandOutput → BuildError CE IE

-- What `std` does with files.
pub record Files (S IE : Type 0) : Type 0 where
  pub create_dir_all : PathBuf → Exec S IE (Unit {0})
  pub write : PathBuf → Text → Exec S IE (Unit {0})
  pub read_to_string : PathBuf → Exec S IE Text
  pub remove_file : PathBuf → Exec S IE (Unit {0})
  pub copy : PathBuf → PathBuf → Exec S IE (Unit {0})
  pub byte_count : PathBuf → Exec S IE ℕ
  -- whether an error says that there is no such file
  pub is_not_found : IE → Bool
  pub available_parallelism : Exec S IE ℕ
  pub to_str : PathBuf → Option Text
  -- a path as the bytes of a command's directory
  pub as_path : PathBuf → Text

-- `Path::parent`
unfoldable pub parent : PathBuf → Option PathBuf
parent [] = none
parent (name ∷ []) = some []
parent (name ∷ next ∷ path) = elim (parent (next ∷ path)) [
  | none ↦ none
  | some above ↦ some (name ∷ above)
]

-- what stands before and after the last dot of a name that does not only begin with it
unfoldable pub last_dot : Text → Option (Text × Text)
last_dot [] = none
last_dot (c ∷ name) = elim (last_dot name) [
  | some (stem, extension) ↦ some (c ∷ stem, extension)
  | none ↦ if c == b'.' then some ([], name) else none
]

abbrev pub file_stem : Text → Text
file_stem name = elim (last_dot name) [
  | none ↦ name
  | some (stem, extension) ↦ if is_empty stem then name else stem
]

-- `Path::with_extension` with an extension that is not empty
unfoldable pub with_extension : Text → PathBuf → PathBuf
with_extension extension [] = []
with_extension extension (name ∷ []) =
    (if bytes_eq name (codes "..") then name else file_stem name ++ (b'.' ∷ extension)) ∷ []
with_extension extension (name ∷ next ∷ path) = name ∷ with_extension extension (next ∷ path)

abbrev has_line : Text → Text → Bool
has_line kconfig setting = any (λ line. bytes_eq (trim line) setting) (lines kconfig)

unfoldable pub is_linux_host : Text → Bool
unfolding any trim lines
is_linux_host kconfig = has_line kconfig (codes "CONFIG_MACH_LINUX=y")

-- the extension of Klipper's artifact
unfoldable pub output_extension : Text → Text
unfolding any trim lines
output_extension kconfig =
    if is_linux_host kconfig
    then codes "elf"
    else if has_line kconfig (codes "CONFIG_MACH_RPXXXX=y")
        && not (has_line kconfig (codes "CONFIG_RPXXXX_FLASH_START_4000=y"))
    then codes "uf2"
    else codes "bin"

unfoldable pub output_artifact_name : Text → PathBuf
output_artifact_name kconfig = codes "out" ∷ (codes "klipper." ++ output_extension kconfig) ∷ []

unfoldable pub kconfig_argument : Text → Text
kconfig_argument config_path = codes "KCONFIG_CONFIG=" ++ config_path

-- a number below 2^64 has at most twenty digits
unfoldable pub decimal : ℕ → ℕ → Text
decimal zero n = []
decimal (suc places) n =
    let digit = b'0' + n % 10 in
    let above = decimal places (n / 10) in if ltb n 10 then digit ∷ [] else above ++ (digit ∷ [])

module _ {S CE IE : Type 0} (files : Files S IE) (run : BuildCommand → Exec S CE CommandOutput)
    (source_dir : PathBuf) where
  -- `.map_err(|source| BuildError::Io { .. })`
  abbrev pub doing : {A : Type 0} → Action → Exec S IE A → Exec S (BuildError CE IE) A
  doing action m s = let (result, s') = m s in (map_err (io action) result, s')

  unfoldable pub write_if_changed : PathBuf → Text → Exec S IE (Unit {0})
  write_if_changed path content s =
      let (existing, s') = files.read_to_string path s in
      let same : Bool = elim existing [ ok found ↦ bytes_eq found content | err e ↦ false ] in
      if same then (ok tt, s') else files.write path content s'

  unfoldable pub remove_if_present : PathBuf → Exec S IE (Unit {0})
  remove_if_present path s =
      let (result, s') = files.remove_file path s in
      elim result [
        | ok u ↦ (ok u, s')
        | err e ↦ if files.is_not_found e then (ok tt, s') else (err e, s')
      ]

  -- `available_parallelism().unwrap_or(NonZeroUsize::MIN)`
  unfoldable pub parallel_jobs : Exec S (BuildError CE IE) ℕ
  parallel_jobs s =
      let (result, s') = files.available_parallelism s in
      elim result [ ok jobs ↦ (ok jobs, s') | err e ↦ (ok 1, s') ]

  abbrev pub make : List Text → BuildCommand
  make arguments = record {
    program = codes "make";
    arguments = arguments;
    current_dir = some (files.as_path source_dir);
    stdin = none;
  }

  unfoldable pub run_make : List Text → Exec S (BuildError CE IE) (Unit {0})
  run_make arguments s =
      let (result, s') = run (make arguments) s in
      elim result [
        | ok output ↦
            if output.success
            then (ok tt, s')
            else (err (command_failed (make arguments) output), s')
        | err source ↦ (err (command_port (make arguments) source), s')
      ]

  abbrev pub or_invalid : {A : Type 0} → InvalidRequest → Option A → Exec S (BuildError CE IE) A
  or_invalid reason none = raise (invalid_request reason)
  or_invalid reason (some a) = pure a

  abbrev pub trusted : Text → Exec S (BuildError CE IE) (Unit {0})
  trusted kconfig = lift (map_err untrusted (validate kconfig))

  abbrev pub report : (BuildProgress → S → S) → BuildProgress → Exec S (BuildError CE IE) (Unit {0})
  report progress stage s = (ok tt, progress stage s)

  abbrev pub checkout_config_path : PathBuf
  checkout_config_path = source_dir ++ (codes ".config" ∷ [])

  -- `if request.clean`
  abbrev pub make_clean : Bool → Exec S (BuildError CE IE) (Unit {0})
  make_clean clean = if clean then run_make (codes "clean" ∷ []) else pure tt

  -- up to the Kconfig that make has expanded
  unfoldable pub configure :
      BuildRequest → Text → (BuildProgress → S → S) → Exec S (BuildError CE IE) Text
  configure request config progress = do
    make_clean request.clean
    report progress configuring
    run_make (codes "olddefconfig" ∷ kconfig_argument config ∷ [])
    doing read_expanded (files.read_to_string checkout_config_path)

  unfoldable pub compile : Text → (BuildProgress → S → S) → Exec S (BuildError CE IE) (Unit {0})
  compile config progress = do
    report progress compiling
    doing discard_version_object
        (remove_if_present (source_dir ++ (codes "out" ∷ codes "compile_time_request.o" ∷ [])))
    jobs ← parallel_jobs
    run_make (kconfig_argument config ∷ (codes "-j" ++ decimal 20 jobs) ∷ [])

  -- the copy of the artifact
  unfoldable pub keep_artifact : BuildRequest → Text → Exec S (BuildError CE IE) BuildArtifact
  keep_artifact request expanded =
      let destination = with_extension (output_extension expanded) request.artifact_path in
      do
        doing copy_artifact (files.copy (source_dir ++ output_artifact_name expanded) destination)
        count ← doing read_artifact (files.byte_count destination)
        pure (record { path = destination; byte_count = count; kconfig = expanded })

  -- from the expanded Kconfig on
  unfoldable pub make_artifact :
      BuildRequest
      → Text
      → PathBuf
      → Text
      → (BuildProgress → S → S)
      → Exec S (BuildError CE IE) BuildArtifact
  make_artifact request config artifact_parent expanded progress = do
    doing record_expanded (files.write request.config_path expanded)
    compile config progress
    doing create_artifact_directory (files.create_dir_all artifact_parent)
    keep_artifact request expanded

  unfoldable pub build_with_progress :
      BuildRequest → (BuildProgress → S → S) → Exec S (BuildError CE IE) BuildArtifact
  build_with_progress request progress = do
    trusted request.kconfig
    config_parent ← or_invalid config_path_without_parent (parent request.config_path)
    artifact_parent ← or_invalid artifact_path_without_parent (parent request.artifact_path)
    doing create_config_directory (files.create_dir_all config_parent)
    doing write_kconfig (files.write request.config_path request.kconfig)
    doing write_checkout_kconfig (write_if_changed checkout_config_path request.kconfig)
    config ← or_invalid checkout_is_not_utf8 (files.to_str checkout_config_path)
    expanded ← configure request config progress
    make_artifact request config artifact_parent expanded progress
