-- ===== src/Eligibility.antt =====
-- Revisions compared (src/eligibility.rs). A semver version, which a crate provides, is a
-- parameter: how one is made of three numbers, how `dev.N` is added, and how two compare.
pub mod Compare
mod Examples
use Prim.Native.Nat.{Ordering}
use mathlib.Core.Option
use aldis.Prelude.{
  ℕ, suc, ◌+◌, ◌-◌, ◌*◌, ◌^◌, ◌%◌, ◌==◌, ltb, leb, ◌&&◌, not, Bool, true, false, if◌then◌else◌,
  List, [], ◌∷◌, ◌++◌, length, take, drop, get_or, Option, none, some,
}
use aldis.Prelude.Text.{
  Text, codes, is_empty, all, is_digit, strip_prefix, strip_suffix, starts_with, split_once,
}

pub data RevisionStatus : Type 0 where
  current update_required newer indeterminate : RevisionStatus

-- `split_once` at a text
unfoldable pub split_once_at : Text → Text → Option (Text × Text)
unfolding strip_prefix
split_once_at separator [] = Option.map (λ rest. ([], rest)) (strip_prefix separator [])
split_once_at separator (x ∷ s) =
    let later = Option.map (λ (t : Text × Text). (x ∷ t.0, t.1)) (split_once_at separator s) in
    elim (strip_prefix separator (x ∷ s)) [ some rest ↦ some ([], rest) | none ↦ later ]

unfoldable pub is_klipper_build_timestamp : Text → Bool
is_klipper_build_timestamp candidate =
    length candidate == 15
    && get_or candidate 8 0 == b'_'
    && all is_digit (take 8 candidate)
    && all is_digit (drop 9 candidate)

unfoldable pub strip_dirty_build_suffix : Text → Option Text
unfolding split_once_at is_klipper_build_timestamp
strip_dirty_build_suffix revision = elim (split_once_at (codes "-dirty-") revision) [
  | none ↦ none
  | some (base, rest) ↦ elim (split_once b'-' rest) [
    | none ↦ none
    | some (timestamp, hostname) ↦
        if is_klipper_build_timestamp timestamp && not (is_empty hostname) then some base else none
  ]
]

unfoldable pub split_dirty_suffix : Text → Text × Bool
unfolding strip_dirty_build_suffix
split_dirty_suffix revision = elim (strip_dirty_build_suffix revision) [
  | some base ↦ (base, true)
  | none ↦ elim (strip_suffix (codes "-dirty") revision) [
    | some base ↦ (base, true)
    | none ↦ (revision, false)
  ]
]

abbrev pub same_flag : Bool → Bool → Bool
same_flag true b = b
same_flag false b = not b

-- the comparison of two bases and their dirty flags
unfoldable pub bases_match : Text × Bool → Text × Bool → Bool
bases_match (running_base, running_dirty) (selected_base, selected_dirty) =
    if not (same_flag running_dirty selected_dirty)
    then false
    else if leb (length running_base) (length selected_base)
    then starts_with running_base selected_base
    else starts_with selected_base running_base

unfoldable pub revisions_match : Text → Text → Bool
unfolding bases_match split_dirty_suffix
revisions_match running selected =
    bases_match (split_dirty_suffix running) (split_dirty_suffix selected)

-- `parse::<u64>()`: an optional sign `+`, then digits, whose number fits 64 bits
unfoldable pub parse_digits : ℕ → Text → Option ℕ
parse_digits n [] = some n
parse_digits n (x ∷ s) =
    let m = n * 10 + (x - b'0') in
    let rest = parse_digits m s in if is_digit x && ltb m (2 ^ 64) then rest else none

abbrev pub without_plus : Text → Text
without_plus s = elim (strip_prefix (b'+' ∷ []) s) [ some rest ↦ rest | none ↦ s ]

unfoldable pub parse_u64 : Text → Option ℕ
unfolding parse_digits
parse_u64 s = if is_empty (without_plus s) then none else parse_digits 0 (without_plus s)

abbrev pub chain : {A B : Type 0} → Option A → (A → Option B) → Option B
chain none f = none
chain (some a) f = f a

-- the parts before the first separator and after it, if there is one
abbrev pub first_part : ℕ → Text → Text × Option Text
first_part separator s = elim (split_once separator s) [
  | none ↦ (s, none)
  | some (a, b) ↦ (a, some b)
]

-- the second of `splitn(3, '-')`, or "0"
abbrev pub commits_part : Option Text → Text
commits_part none = codes "0"
commits_part (some rest) = (first_part b'-' rest).0

pub record Semver (V : Type 0) : Type 0 where
  -- `Version::parse`, and the version as text
  pub parse : Text → Option V
  pub display : V → Text
  pub version : ℕ → ℕ → ℕ → V
  -- the version with the prerelease `dev.N`, if that is one
  pub with_dev : V → ℕ → Option V
  pub cmp : V → V → Ordering

module _ {V : Type 0} (semver : Semver V) where
  unfoldable pub klipper_version : Text → Option V
  unfolding parse_u64
  klipper_version revision = chain (strip_prefix (b'v' ∷ []) revision) (λ rest.
      chain (parse_u64 (commits_part (first_part b'-' rest).1)) (λ commits.
        chain (parse_u64 (first_part b'.' (first_part b'-' rest).0).0) (λ major.
          chain (first_part b'.' (first_part b'-' rest).0).1 (λ later.
            chain (parse_u64 (first_part b'.' later).0) (λ minor.
              chain (first_part b'.' later).1 (λ last. chain (parse_u64 last) (λ patch.
                if commits == 0
                then some (semver.version major minor patch)
                else semver.with_dev (semver.version major minor (suc patch % 2 ^ 64))
                    commits)))))))

  unfoldable pub compare_versions : V → V → RevisionStatus
  compare_versions running target = elim (semver.cmp running target) [
    | Ordering.lt ↦ update_required
    | Ordering.eq ↦ current
    | Ordering.gt ↦ newer
  ]

  -- Equal positions of different commits are an update.
  abbrev pub or_update : RevisionStatus → RevisionStatus
  or_update current = update_required
  or_update status = status

  abbrev pub compare_positions : Option V → Option V → RevisionStatus
  compare_positions (some running) (some selected) = or_update (compare_versions running selected)
  compare_positions none selected = update_required
  compare_positions (some running) none = update_required

  unfoldable pub compare_revisions : Text → Text → RevisionStatus
  unfolding compare_versions klipper_version
  compare_revisions running selected =
      if revisions_match running selected
      then current
      else compare_positions (klipper_version running) (klipper_version selected)
