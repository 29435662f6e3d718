-- ===== src/Vendors/Cartographer.antt =====
-- Cartographer firmware (src/cartographer.rs): what a probe runs, what an image says about itself,
-- and whether an image suits a probe. Inflating and reading the dictionary inside an image is a
-- parameter.
pub mod Manifest
pub mod Select
mod Examples
use aldis.Prelude.{
  ℕ, ◌+◌, ◌*◌, ◌%◌, ◌==◌, ◌&&◌, ◌||◌, not, Bool, true, false, if◌then◌else◌, List, [], ◌∷◌, Bytes,
  length, bytes_eq, Option, none, some, Result, ok, err, and_then,
}
use aldis.Prelude.Text.{Text, codes, any, split, one_of, trim}
use aldis.Prelude.Iter.{first, every, filter_map, or_later}
use aldis.Prelude.Strings.{split_whitespace, eq_ignore_ascii_case, is_number}
use aldis.Fleet.{Mcu, nonempty}
use aldis.Eligibility.{Semver, chain, RevisionStatus, compare_versions}
use aldis.Flash.Stm32.{plausible_application_starts}

abbrev pub cartographer_app : Text
cartographer_app = codes "Cartographer"

abbrev pub cartographer_start : ℕ
cartographer_start = 0x08002000

pub data Generation : Type 0 where
  v3 v4 : Generation

abbrev pub generation_of : Text → Option Generation
generation_of mcu =
    if bytes_eq mcu (codes "stm32f042x6")
    then some v3
    else if bytes_eq mcu (codes "stm32g431xx") || bytes_eq mcu (codes "stm32g474xx")
    then some v4
    else none

abbrev pub generation_label : Generation → Text
generation_label v3 = codes "v3"
generation_label v4 = codes "v4"

pub data Build : Type 0 where
  full lite : Build

unfoldable pub build_from_version : Text → Build
unfolding any split_whitespace eq_ignore_ascii_case
build_from_version version =
    if any
      (λ word. eq_ignore_ascii_case word (codes "lite") || eq_ignore_ascii_case word (codes "k1"))
      (split_whitespace version)
    then lite
    else full

abbrev pub build_eq : Build → Build → Bool
build_eq full full = true
build_eq lite lite = true
build_eq _ _ = false

abbrev pub is_lite : Build → Bool
is_lite lite = true
is_lite full = false

pub record Firmware (V : Type 0) : Type 0 where
  pub generation : Generation
  pub build : Build
  pub version : V
  pub mcu : Text
  pub can_frequency : Option ℕ

pub data Unsupported : Type 0 where
  unknown_probe : Text → Unsupported
  unparsable_version : Text → Unsupported

abbrev text_or_empty : Option Text → Text
text_or_empty (some s) = s
text_or_empty none = []

abbrev names_word : Option Text → Bool
names_word none = false
names_word (some word) = eq_ignore_ascii_case word cartographer_app

abbrev named : Option Text → Text → Bool
named (some app) version = eq_ignore_ascii_case app cartographer_app
named none version = names_word (first (split_whitespace version))

-- A blank `app` counts as absent.
abbrev trimmed : Option Text → Option Text
trimmed none = none
trimmed (some app) = nonempty (trim app)

unfoldable pub names_itself_cartographer : Option Text → Text → Bool
unfolding split_whitespace eq_ignore_ascii_case trim
names_itself_cartographer app version = named (trimmed app) version

unfoldable pub is_cartographer : Mcu → Bool
unfolding names_itself_cartographer
is_cartographer mcu = names_itself_cartographer mcu.app (text_or_empty mcu.version)

-- What an image says about itself.
pub record ImageIdentity : Type 0 where
  pub version : Text
  pub app : Option Text
  pub mcu : Text
  pub can_frequency : Option ℕ

-- `DictionaryIdentity` of src/identify.rs
pub record DictionaryIdentity : Type 0 where
  pub version : Option Text
  pub app : Option Text
  pub mcu : Option Text
  pub canbus_frequency_hz : Option ℕ

abbrev identity_of : DictionaryIdentity → Option ImageIdentity
identity_of d = chain (d).version (λ version. chain (d).mcu (λ mcu. some (record {
  version = version;
  app = (d).app;
  mcu = mcu;
  can_frequency = d.canbus_frequency_hz;
})))

-- a zlib header
abbrev is_zlib : ℕ → ℕ → Bool
is_zlib cmf flg = cmf == 0x78 && (cmf * 256 + flg) % 31 == 0

-- `image_identity`: the first offset, at least three bytes before the end, where a dictionary is
unfoldable pub image_identity : (Bytes → Option DictionaryIdentity) → Bytes → Option ImageIdentity
image_identity dictionary (cmf ∷ flg ∷ x ∷ rest) =
    or_later
      (if is_zlib cmf flg then chain (dictionary (cmf ∷ flg ∷ x ∷ rest)) identity_of else none)
      (image_identity dictionary (flg ∷ x ∷ rest))
image_identity dictionary _ = none

abbrev pub freq_eq : Option ℕ → Option ℕ → Bool
freq_eq none none = true
freq_eq (some a) (some b) = a == b
freq_eq _ _ = false

pub data Mismatch : Type 0 where
  no_identity not_cartographer : Mismatch
  -- image, probe
  mcu_differs : Text → Text → Mismatch
  link_differs : Option ℕ → Option ℕ → Mismatch
  not_an_application : Mismatch

module _ {V : Type 0} (semver : Semver V) where
  -- a word of three numbers, as a version
  abbrev version_word : Text → Option V
  version_word word =
      if length (split b'.' word) == 3 && every is_number (split b'.' word)
      then semver.parse word
      else none

  abbrev only : {A : Type 0} → List A → Option A
  only (a ∷ []) = some a
  only _ = none

  unfoldable pub parse_version : Text → Option V
  unfolding filter_map every split
  parse_version version = only (filter_map version_word (split_whitespace version))

  abbrev identified : Mcu → Option Generation → Option V → Result Unsupported (Firmware V)
  identified mcu none version = err (unknown_probe mcu.mcu)
  identified mcu (some generation) none = err (unparsable_version (text_or_empty mcu.version))
  identified mcu (some generation) (some version) = ok (record {
    generation = generation;
    build = build_from_version (text_or_empty mcu.version);
    version = version;
    mcu = mcu.mcu;
    can_frequency = mcu.canbus_frequency_hz;
  })

  -- `None` for what is no Cartographer
  unfoldable pub identify : Mcu → Option (Result Unsupported (Firmware V))
  unfolding is_cartographer parse_version build_from_version
  identify mcu =
      if not (is_cartographer mcu)
      then none
      else some (identified mcu (generation_of mcu.mcu) (parse_version (text_or_empty mcu.version)))

module _ {V : Type 0} (dictionary : Bytes → Option DictionaryIdentity) where
  abbrev checked : Bytes → Firmware V → ImageIdentity → Result Mismatch ImageIdentity
  checked image running identity =
      if not (names_itself_cartographer (identity).app (identity).version)
      then err not_cartographer
      else if not (bytes_eq (identity).mcu (running).mcu)
      then err (mcu_differs (identity).mcu (running).mcu)
      else if not (freq_eq (identity).can_frequency (running).can_frequency)
      then err (link_differs (identity).can_frequency (running).can_frequency)
      else if not (one_of (plausible_application_starts image) cartographer_start)
      then err not_an_application
      else ok identity

  unfoldable pub check_image : Bytes → Firmware V → Result Mismatch ImageIdentity
  unfolding image_identity one_of
  check_image image running = elim (image_identity dictionary image) [
    | none ↦ err no_identity
    | some identity ↦ checked image running identity
  ]
