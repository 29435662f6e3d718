-- ===== src/Builder/Examples.antt =====
-- A build on a host whose files are a function of their paths.
use aldis.Prelude.{
  ℕ, Bool, true, false, if◌then◌else◌, [], ◌∷◌, ◌&&◌, ◌≡◌, refl, ◌⊎◌, length, bytes_eq, some,
  Result, ok, Exec,
}
use aldis.Prelude.Text.{Text, codes, trim, any, lines}
use aldis.Service.{BuildCommand, CommandOutput}
use aldis.Prepare.{PathBuf, BuildRequest}
use aldis.Coordinator.{BuildArtifact, BuildProgress}
use aldis.Builder.{
  BuildError, Files, with_extension, last_dot, build_with_progress, output_extension, is_linux_host,
}
use aldis.Builder.Built.{IsTrusted, build_with_progress-trusts}

renamed :
    with_extension (codes "uf2") (codes "runs" ∷ codes "klipper.v1.bin" ∷ [])
    ≡ codes "runs" ∷ codes "klipper.v1.uf2" ∷ []
unfolding with_extension last_dot bytes_eq
renamed = refl

rp2040_is_uf2 : output_extension (codes "CONFIG_MACH_RPXXXX=y\n") ≡ codes "uf2"
unfolding output_extension is_linux_host any trim lines bytes_eq
rp2040_is_uf2 = refl

abbrev Host : Type 0
Host = PathBuf → Text

abbrev path_eq : PathBuf → PathBuf → Bool
path_eq [] [] = true
path_eq (x ∷ xs) (y ∷ ys) = bytes_eq x y && path_eq xs ys
path_eq _ _ = false

abbrev put : PathBuf → Text → Host → Host
put path text s q = if path_eq q path then text else s q

-- Whatever is read is there, and no directory is missing.
abbrev files : Files Host ℕ
files = record {
  create_dir_all = λ path. λ s. (ok tt, s);
  write = λ path text. λ s. (ok tt, put path text s);
  read_to_string = λ path. λ s. (ok (s path), s);
  remove_file = λ path. λ s. (ok tt, put path [] s);
  copy = λ source destination. λ s. (ok tt, put destination (s source) s);
  byte_count = λ path. λ s. (ok (length (s path)), s);
  is_not_found = λ e. false;
  available_parallelism = λ s. (ok 4, s);
  to_str = λ path. some (codes "klipper/.config");
  as_path = λ path. codes "klipper";
}

abbrev source_dir : PathBuf
source_dir = codes "klipper" ∷ []

-- make writes an image of three bytes
abbrev make_image : BuildCommand → Exec Host ℕ CommandOutput
make_image command s = (
  ok (record { success = true; stdout = []; stderr = [] }),
  put (codes "klipper" ∷ codes "out" ∷ codes "klipper.bin" ∷ []) (1 ∷ 2 ∷ 3 ∷ []) s,
)

abbrev request : BuildRequest
request = record {
  kconfig = codes "CONFIG_A=y\n";
  config_path = codes "c" ∷ codes "k" ∷ [];
  artifact_path = codes "a" ∷ codes "f.bin" ∷ [];
  clean = false;
}

abbrev artifact : BuildArtifact
artifact = record {
  path = codes "a" ∷ codes "f.bin" ∷ [];
  byte_count = 3;
  kconfig = codes "CONFIG_A=y\n";
}

abbrev silent : BuildProgress → Host → Host
silent stage s = s

abbrev built : Result (BuildError ℕ ℕ) BuildArtifact × Host
built = build_with_progress files make_image source_dir request silent (λ path. [])

abbrev left : Host
left = built.1

abbrev contents : PathBuf → Host → Text
contents path s = s path

build_with_progress-trusts_example : IsTrusted request.kconfig ⊎ (left ≡ (λ path. []))
build_with_progress-trusts_example =
    build_with_progress-trusts files make_image source_dir request silent (λ path. [])
