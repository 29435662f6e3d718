-- ===== src/Vendors/Foci.antt =====
-- FOCI firmware (src/foci.rs): which board, flavor and version an MCU runs, what a release's
-- image is called, and how a running version compares with a release.
pub mod Releases
use Prim.Native.Nat.{Ordering}
use aldis.Prelude.{
  ℕ, zero, suc, ◌^◌, ◌==◌, ltb, ◌&&◌, not, Bool, true, false, if◌then◌else◌, List, [], ◌∷◌, ◌++◌,
  bytes_eq, Option, none, some, Result, ok, err, and_then,
}
use aldis.Prelude.Text.{Text, codes, is_empty, any, strip_prefix, strip_suffix, starts_with, split}
use aldis.Prelude.Iter.{every, find_map, or_later}
use aldis.Prelude.Strings.{split_whitespace, eq_ignore_ascii_case, join, is_number, parse_below}
use aldis.Fleet.{Mcu, app_name}
use aldis.Eligibility.{
  Semver, chain, RevisionStatus, current, update_required, newer, indeterminate,
}

abbrev pub foci_app : Text
foci_app = codes "FOCI"

pub data Board : Type 0 where
  ouroboros open_ffboard : Board

abbrev pub from_mcu : Text → Option Board
from_mcu mcu =
    if bytes_eq mcu (codes "stm32h723xx")
    then some ouroboros
    else if bytes_eq mcu (codes "stm32f407xx")
    then some open_ffboard
    else none

abbrev pub crate_name : Board → Text
crate_name ouroboros = codes "ouroboros-fw"
crate_name open_ffboard = codes "openffboard-fw"

abbrev pub application_start : Board → ℕ
application_start ouroboros = 0x08020000
application_start open_ffboard = 0x08008000

pub data Flavor : Type 0 where
  prod trace : Flavor

abbrev pub flavor_label : Flavor → Text
flavor_label prod = codes "prod"
flavor_label trace = codes "trace"

pub data Unsupported : Type 0 where
  unknown_board : Text → Unsupported
  unknown_flavor : Text → Unsupported
  no_build_features : Unsupported
  unparsable_version : Text → Unsupported

abbrev ok_or : {A : Type 0} → Option A → Unsupported → Result Unsupported A
ok_or (some a) e = ok a
ok_or none e = err e

abbrev flavor_of : Text → Result Unsupported Flavor
flavor_of features =
    if bytes_eq features (codes "none")
    then ok prod
    else if bytes_eq features (codes "trace")
    then ok trace
    else err (unknown_flavor features)

unfoldable pub from_build_versions : Text → Result Unsupported Flavor
unfolding split_whitespace find_map strip_prefix
from_build_versions build_versions =
    and_then
      (ok_or
        (find_map (λ field. strip_prefix (codes "features=") field)
          (split_whitespace build_versions))
        no_build_features)
      flavor_of

pub record Version (V : Type 0) : Type 0 where
  pub package_version : V
  pub commits : ℕ
  pub dirty : Bool

pub record Firmware (V : Type 0) : Type 0 where
  pub board : Board
  pub flavor : Flavor
  pub version : Version V

pub record Release (V : Type 0) : Type 0 where
  pub tag : Text
  pub version : V

-- the version without the suffix "-dirty", and whether it had it
abbrev pub without_dirty : Text → Text × Bool
without_dirty s = elim (strip_suffix (codes "-dirty") s) [
  | some base ↦ (base, true)
  | none ↦ (s, false)
]

unfoldable pub is_foci : Mcu → Bool
unfolding app_name any every
is_foci mcu = elim (app_name mcu) [
  | some app ↦ eq_ignore_ascii_case app foci_app
  | none ↦ elim (mcu.build_versions) [
    | none ↦ false
    | some versions ↦
        every (λ key. any (λ field. starts_with key field) (split_whitespace versions))
          (codes "rust=" ∷ codes "features=" ∷ codes "board=" ∷ [])
  ]
]

module _ {V : Type 0} (semver : Semver V) where
  -- the version whose commit count is the field `commits`, followed by the field `hash`
  abbrev version_at : List Text → Text → Text → Bool → Option (Version V)
  version_at before commits hash dirty =
      if not (is_number commits) then none else elim (strip_prefix (codes "g") hash) [
        | none ↦ none
        | some rest ↦
            if is_empty rest
            then none
            else chain (semver.parse (join (codes "-") before)) (λ package_version.
              chain (parse_below (2 ^ 32) commits) (λ n.
                some (record { package_version = package_version; commits = n; dirty = dirty })))
      ]

  -- the first field that can be a commit count; `before` are the fields in front of it
  unfoldable pub find_commits : List Text → List Text → Bool → Option (Version V)
  find_commits before [] dirty = none
  find_commits before (commits ∷ []) dirty = none
  find_commits before (commits ∷ hash ∷ rest) dirty =
      or_later (version_at before commits hash dirty)
        (find_commits (before ++ (commits ∷ [])) (hash ∷ rest) dirty)

  abbrev find_in : List Text → Bool → Option (Version V)
  find_in [] dirty = none
  find_in (f ∷ fields) dirty = find_commits (f ∷ []) fields dirty

  -- `Version::parse`
  unfoldable pub parse_version : Text → Option (Version V)
  unfolding find_commits
  parse_version version =
      chain (strip_prefix (codes "v") version)
        (λ rest. let (base, dirty) = without_dirty rest in find_in (split b'-' base) dirty)

  unfoldable pub is_release_build : Version V → Bool
  is_release_build version = version.commits == 0 && not version.dirty

  abbrev version_or_empty : Option Text → Text
  version_or_empty (some v) = v
  version_or_empty none = []

  unfoldable pub identify : Mcu → Result Unsupported (Firmware V)
  unfolding from_build_versions parse_version
  identify mcu = and_then (ok_or (from_mcu mcu.mcu) (unknown_board mcu.mcu)) (λ board.
      and_then (and_then (ok_or mcu.build_versions no_build_features) from_build_versions)
        (λ flavor.
          and_then
            (ok_or (parse_version (version_or_empty mcu.version))
              (unparsable_version (version_or_empty mcu.version)))
            (λ version. ok (record { board = board; flavor = flavor; version = version }))))

  unfoldable pub from_tag : Text → Option (Release V)
  from_tag tag = chain (strip_prefix (codes "v") tag) (λ rest.
      chain (semver.parse rest) (λ version. some (record { tag = tag; version = version })))

  unfoldable pub asset_name : Release V → Board → Flavor → Text
  asset_name release board flavor =
      crate_name board
      ++ (codes "-v"
          ++ (semver.display (release).version
              ++ (codes "-" ++ (flavor_label flavor ++ codes ".bin"))))

  -- when the package is the release's
  abbrev compare_equal : Version V → RevisionStatus
  compare_equal running =
      if ltb 0 running.commits then newer else if running.dirty then indeterminate else current

  unfoldable pub compare : Version V → Release V → RevisionStatus
  unfolding is_release_build
  compare running release = elim (semver.cmp running.package_version (release).version) [
    | Ordering.gt ↦ newer
    | Ordering.eq ↦ compare_equal running
    | Ordering.lt ↦ if is_release_build running then update_required else indeterminate
  ]
