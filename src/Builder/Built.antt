-- ===== src/Builder/Built.antt =====
-- What a build that succeeds has made (`build_with_progress` of src/build.rs), and what an
-- untrusted Kconfig cannot reach.
use aldis.Prelude.{
  [], ◌∷◌, ◌≤◌, ◌≡◌, ap, ◌⊎◌, inl, inr, length, Bytes, ◌++◌, Result, ok, err, map_err, continue,
  Exec, ◌>>=◌, Result-cases, All,
}
use aldis.Prelude.Text.{Text, codes, split}
use aldis.Kconfig.{InvalidKconfig, validate, max_bytes}
use aldis.Kconfig.Admissible.{IsAdmissible}
use aldis.Kconfig.Harmless.{validate-IsAdmissible}
use aldis.Service.{BuildCommand, CommandOutput}
use aldis.Prepare.{PathBuf, BuildRequest}
use aldis.Coordinator.{BuildArtifact, BuildProgress}
use aldis.Builder.Extension.{IsExtension}
use aldis.Builder.{
  run_make, kconfig_argument, BuildError, untrusted, Files, with_extension, trusted, compile,
  build_with_progress,
}

abbrev pub IsTrusted : Text → Type 0
IsTrusted kconfig = All IsAdmissible (split b'\n' kconfig) × (length kconfig ≤ max_bytes)

pub map_err-eq-ok :
    {E F A : Type 0} (f : E → F) (r : Result E A) {a : A} → map_err f r ≡ ok a → r ≡ ok a
map_err-eq-ok f (ok a) h = cc
map_err-eq-ok f (err e) h = cc

abbrev pub get_ok : {E A : Type 0} → A → Result E A → A
get_ok a (ok b) = b
get_ok a (err e) = a

module _ {S CE IE : Type 0} (files : Files S IE) (run : BuildCommand → Exec S CE CommandOutput)
    (source_dir : PathBuf) where
  refused :
      {A : Type 0} (kconfig : Text) (f : Unit {0} → Exec S (BuildError CE IE) A) (s : S)
      (reason : InvalidKconfig)
      → validate kconfig ≡ err reason
      → ((trusted files run source_dir kconfig >>= f) s).1 ≡ s
  refused kconfig f s reason e = ap (λ r. (continue (map_err untrusted r) f s).1) e

  -- Either every line of the Kconfig is admissible, and it is at most 256 KiB long, or a build leaves
  -- the host as it was.
  pub build_with_progress-trusts :
      (request : BuildRequest) (progress : BuildProgress → S → S) (s : S)
      → IsTrusted request.kconfig
        ⊎ ((build_with_progress files run source_dir request progress s).1 ≡ s)
  unfolding build_with_progress
  build_with_progress-trusts request progress s = elim (Result-cases (validate request.kconfig)) [
    | inl (u, e) ↦ inl (validate-IsAdmissible request.kconfig e)
    | inr (reason, e) ↦ inr (refused request.kconfig _ s reason e)
  ]

  module _ (contents : PathBuf → S → Bytes) where
    -- An artifact that the host holds: named for what Klipper builds, of the counted length, and the
    -- bytes that the checkout held on the host `t`.
    abbrev pub IsKept : BuildRequest → BuildArtifact → S → S → Type 0
    IsKept request artifact t u =
        (extension : Text) × IsExtension artifact.kconfig extension
        × (artifact.path ≡ with_extension extension request.artifact_path)
        × (contents artifact.path u
            ≡ contents (source_dir ++ (codes "out" ∷ (codes "klipper." ++ extension) ∷ [])) t)
        × (artifact.byte_count ≡ length (contents artifact.path u))

    -- The Kconfig that make has expanded is read from the checkout, and make succeeds to build from
    -- the host where it is recorded, before a directory is made.
    abbrev pub IsBuilt : BuildRequest → (BuildProgress → S → S) → BuildArtifact → S → Type 0
    IsBuilt request progress artifact u =
        (config : Text) × (q : S) × (expanded : S) × (read : S) × (recorded : S) × (made : S)
        × (t : S) × (above : PathBuf) × (run_make files run source_dir
              (codes "olddefconfig" ∷ kconfig_argument config ∷ []) q
            ≡ (ok tt, expanded))
        × (files.read_to_string (source_dir ++ (codes ".config" ∷ [])) expanded
            ≡ (ok artifact.kconfig, read))
        × (files.write request.config_path artifact.kconfig read ≡ (ok tt, recorded))
        × (compile files run source_dir config progress recorded ≡ (ok tt, made))
        × (files.create_dir_all above made ≡ (ok tt, t))
        × IsKept request artifact t u
