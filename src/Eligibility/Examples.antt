-- ===== src/Eligibility/Examples.antt =====
-- Revisions as the firmware and the checkout report them.
use Prim.Native.Nat.{compare, Ordering}
use aldis.Prelude.{ℕ, ◌+◌, ◌-◌, ◌*◌, true, false, ◌≡◌, refl, arith, none, some, bytes_eq}
use aldis.Prelude.Text.{Text, codes, all, strip_prefix, strip_suffix, starts_with, split_once}
use aldis.Eligibility.{
  newer, update_required, revisions_match, split_once_at, Semver, klipper_version, parse_digits,
  compare_revisions, compare_versions,
}
use aldis.Eligibility.Compare.{compare_revisions-newer}

-- Versions as numbers: a prerelease comes before its version.
abbrev numbers : Semver ℕ
numbers = record {
  parse = λ s. none;
  display = λ v. codes "";
  version = λ major minor patch. major * 100000000 + minor * 1000000 + patch * 10000;
  with_dev = λ v n. some (v - 10000 + n);
  cmp = compare;
}

numbers-turn : (v w : ℕ) → compare v w ≡ Ordering.gt → compare w v ≡ Ordering.lt
numbers-turn v w h = ground arith

abbrev ahead : Text
ahead = codes "v0.13.0-756-g2d7717e3"

abbrev behind : Text
behind = codes "v0.13.0-753-g8c29c0a8e"

ahead-newer : compare_revisions numbers ahead behind ≡ newer
unfolding compare_revisions revisions_match split_once_at klipper_version parse_digits
    compare_versions all strip_prefix strip_suffix starts_with split_once bytes_eq
ahead-newer = refl

compare_revisions-newer_example :
    (revisions_match ahead behind ≡ false)
    × (compare_revisions numbers behind ahead ≡ update_required)
compare_revisions-newer_example =
    compare_revisions-newer numbers ahead behind numbers-turn ahead-newer

-- A longer hash of the same commit, and a dirty build with its time and host.
longer_hash : revisions_match ahead (codes "v0.13.0-756-g2d7717e3f") ≡ true
unfolding revisions_match split_once_at all strip_prefix strip_suffix starts_with split_once
    bytes_eq
longer_hash = refl

dirty_build :
    revisions_match
      (codes "v0.13.0-756-g2d7717e3-dirty-20260101_120000-my-host")
      (codes "v0.13.0-756-g2d7717e3-dirty")
    ≡ true
unfolding revisions_match split_once_at all strip_prefix strip_suffix starts_with split_once
    bytes_eq
dirty_build = refl

-- A tag alone is a prefix too.
tag_only : revisions_match (codes "v0.13.0") ahead ≡ true
unfolding revisions_match split_once_at all strip_prefix strip_suffix starts_with split_once
    bytes_eq
tag_only = refl
