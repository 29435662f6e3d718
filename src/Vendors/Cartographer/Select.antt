-- ===== src/Vendors/Cartographer/Select.antt =====
-- The image that a Cartographer is updated to (src/cartographer.rs): the newest of those that the
-- manifest lists for the probe, that say so themselves, and that the installed plugin works with.
-- Reading a file is a parameter.
pub mod Inside
pub mod Suits
use Prim.Native.Nat.{Ordering}
use aldis.Prelude.{
  ℕ, ◌==◌, ◌&&◌, ◌||◌, not, Bool, true, false, if◌then◌else◌, List, [], ◌∷◌, ◌++◌, map, Bytes,
  bytes_eq, Option, none, some, Result, ok, err,
}
use aldis.Prelude.Text.{Text, codes, split, is_empty, any}
use aldis.Prelude.Iter.{keep, filter_map}
use aldis.Prelude.Strings.{lookup}
use aldis.Fleet.{Mcu, McuTransport, serial, can}
use aldis.Prepare.{PathBuf}
use aldis.Eligibility.{Semver, chain, RevisionStatus, compare_versions}
use aldis.Vendors.Beacon.Targets.{known}
use aldis.Vendors.Cartographer.{
  Firmware, Unsupported, ImageIdentity, DictionaryIdentity, generation_label, build_from_version,
  build_eq, is_lite, freq_eq, check_image, parse_version, identify, Generation, Build,
}
use aldis.Vendors.Cartographer.Manifest.{ManifestEntry, ManifestError, parse_manifest}

pub record CartographerTarget (V : Type 0) : Type 0 where
  pub path : PathBuf
  pub version : V
  pub reported : Text
  pub held_back : Option (V × V)

-- The manifest's error is the text of what went wrong, or what parsing it says.
pub data Unavailable (V : Type 0) : Type 0 where
  no_checkout not_configured no_can_bitrate : Unavailable V
  unreadable : PathBuf → Text → Unavailable V
  manifest : PathBuf → ManifestError → Unavailable V
  not_can : Text → Unavailable V
  -- generation, link, build
  no_image : Generation → Option ℕ → Build → Unavailable V
  plugin_too_old : V → Option V → Unavailable V
  ambiguous : List PathBuf → Unavailable V

pub record CartographerTargets (V : Type 0) : Type 0 where
  pub checkout : Option PathBuf
  pub plugin : Option V
  pub mcus : List (Text × Result (Unavailable V) (CartographerTarget V))

unfoldable pub cartographer_target :
    {V : Type 0} → CartographerTargets V → Text → Option (CartographerTarget V)
unfolding lookup
cartographer_target targets name = known (lookup name targets.mcus)

-- The components of a relative path that are names: a single dot counts only in front, and
-- empty ones do not count.
abbrev pub is_current : Text → Bool
is_current s = bytes_eq s (codes ".")

abbrev pub normal : List Text → Option PathBuf
normal parts =
    if any (λ part. bytes_eq part (codes "..")) parts
    then none
    else some (keep (λ part. not (is_empty part) && not (is_current part)) parts)

abbrev pub normal_from : List Text → Option PathBuf
normal_from [] = some []
normal_from (part ∷ []) = if is_current part then none else normal (part ∷ [])
normal_from (part ∷ next ∷ parts) =
    if is_current part || is_empty part then none else normal (part ∷ next ∷ parts)

unfoldable pub image_path : PathBuf → Text → Option PathBuf
unfolding any keep split
image_path checkout relative = elim (normal_from (split b'/' relative)) [
  | none ↦ none
  | some path ↦ some (checkout ++ (codes "firmware" ∷ path))
]

-- an entry, its path and the version that the image reports
abbrev pub Candidate : Type 0 → Type 0
Candidate V = ManifestEntry V × (PathBuf × Text)

module _ {V : Type 0} (semver : Semver V) where
  unfoldable pub compare : Firmware V → CartographerTarget V → RevisionStatus
  unfolding compare_versions
  compare running target = compare_versions semver (running).version (target).version

  abbrev is_gt : Ordering → Bool
  is_gt Ordering.gt = true
  is_gt _ = false

  abbrev is_eq : Ordering → Bool
  is_eq Ordering.eq = true
  is_eq _ = false

  abbrev pub same_version : V → V → Bool
  same_version a b = is_eq (semver.cmp a b)

  -- `max` keeps the last of the greatest, `min` the first of the least
  abbrev greatest_of : V → Option V → Option V
  greatest_of v none = some v
  greatest_of v (some w) = if is_gt (semver.cmp v w) then some v else some w

  abbrev pub greatest : List V → Option V
  greatest [] = none
  greatest (v ∷ vs) = greatest_of v (greatest vs)

  abbrev least_of : V → Option V → Option V
  least_of v none = some v
  least_of v (some w) = if is_gt (semver.cmp v w) then some w else some v

  abbrev least : List V → Option V
  least [] = none
  least (v ∷ vs) = least_of v (least vs)

  -- pairs compared by their first parts, and then by their second
  abbrev pair_gt : V × V → V × V → Bool
  pair_gt (a, b) (c, d) = is_gt (semver.cmp a c) || (same_version a c && is_gt (semver.cmp b d))

  abbrev greatest_pair_of : V × V → Option (V × V) → Option (V × V)
  greatest_pair_of p none = some p
  greatest_pair_of p (some q) = if pair_gt p q then some p else some q

  abbrev greatest_pair : List (V × V) → Option (V × V)
  greatest_pair [] = none
  greatest_pair (p ∷ ps) = greatest_pair_of p (greatest_pair ps)

  abbrev installed_works : V → Option V → Bool
  installed_works needed none = false
  installed_works needed (some installed) = not (is_gt (semver.cmp needed installed))

  -- `min_plugin.is_none_or(|needed| plugin.is_some_and(|installed| installed >= needed))`
  abbrev pub works_with : Option V → Option V → Bool
  works_with none plugin = true
  works_with (some needed) plugin = installed_works needed plugin

  -- for the probe's generation, link, bitrate and build
  abbrev pub is_for_probe : Firmware V → Text → ManifestEntry V → Bool
  is_for_probe running protocol entry =
      bytes_eq entry.probe_version (generation_label running.generation)
      && bytes_eq (entry).protocol protocol
      && freq_eq (entry).can_speed (running).can_frequency
      && build_eq (if entry.lite then Build.lite else Build.full) (running).build

  abbrev pub agrees_with : Option V → V → Bool
  agrees_with none w = false
  agrees_with (some v) w = same_version v w

  -- what the image says of itself agrees with the manifest
  unfoldable pub agrees : Firmware V → ManifestEntry V → ImageIdentity → Bool
  unfolding parse_version
  agrees running entry identity =
      build_eq (build_from_version (identity).version) (running).build
      && agrees_with (parse_version semver (identity).version) (entry).version

  module _ (dictionary : Bytes → Option DictionaryIdentity) (read : PathBuf → Option Bytes) where
    abbrev candidate_read :
        Firmware V → ManifestEntry V → PathBuf → Option Bytes → Option (Candidate V)
    candidate_read running entry path none = none
    candidate_read running entry path (some image) = elim (check_image dictionary image running) [
      | err e ↦ none
      | ok identity ↦
          if agrees running entry identity then some (entry, (path, (identity).version)) else none
    ]

    -- the candidate that an entry comes to, if the image at its path suits the probe
    unfoldable pub candidate : PathBuf → Firmware V → ManifestEntry V → Option (Candidate V)
    unfolding image_path check_image agrees
    candidate checkout running entry = elim (image_path checkout (entry).path) [
      | none ↦ none
      | some path ↦ candidate_read running entry path (read path)
    ]

  abbrev works : Option V → Candidate V → Bool
  works plugin c = works_with c.0.min_plugin plugin

  -- `filter_map(|(entry, ..)| entry.min_plugin.clone())`
  unfoldable pub needed : List (Candidate V) → List V
  unfolding filter_map
  needed = filter_map (λ (c : Candidate V). c.0.min_plugin)

  -- why nothing works with the plugin
  abbrev none_works : Firmware V → Option V → Option V → Unavailable V
  none_works running plugin (some v) = plugin_too_old v plugin
  none_works running plugin none =
      no_image running.generation (running).can_frequency (running).build

  -- a newer version that the plugin is too old for, with the plugin that it needs
  abbrev held : Option V → V → Candidate V → Option (V × V)
  held plugin best c =
      if not (works plugin c) && is_gt (semver.cmp (c.0).version best)
      then chain c.0.min_plugin (λ v. some ((c.0).version, v))
      else none

  abbrev selected :
      Option V
      → List (Candidate V)
      → V
      → List (Candidate V)
      → Result (Unavailable V) (CartographerTarget V)
  selected plugin candidates best (c ∷ []) = ok (record {
    path = c.1.0;
    version = best;
    reported = c.1.1;
    held_back = greatest_pair (filter_map (held plugin best) candidates);
  })
  selected plugin candidates best at_best =
      err (ambiguous (map (λ (c : Candidate V). c.1.0) at_best))

  -- of the candidates, the one at the newest version that works with the plugin
  unfoldable pub choose :
      Firmware V → Option V → List (Candidate V) → Result (Unavailable V) (CartographerTarget V)
  unfolding keep needed filter_map
  choose running plugin candidates =
      elim (greatest (map (λ (c : Candidate V). (c.0).version) (keep (works plugin) candidates))) [
        | none ↦ err (none_works running plugin (least (needed candidates)))
        | some best ↦
            selected plugin candidates best
              (keep (λ c. works plugin c && same_version (c.0).version best) candidates)
      ]

  abbrev protocol_of : Option McuTransport → Option ℕ → Result (Unavailable V) Text
  protocol_of none frequency = err not_configured
  protocol_of (some (can interface uuid)) (some hz) = ok (codes "CAN")
  protocol_of (some (can interface uuid)) none = err no_can_bitrate
  protocol_of (some (serial device)) (some hz) = err (not_can device)
  protocol_of (some (serial device)) none = ok (codes "USB")

  module _ (dictionary : Bytes → Option DictionaryIdentity) (read : PathBuf → Option Bytes) where
    unfoldable pub candidates_for :
        PathBuf → List (ManifestEntry V) → Firmware V → Text → List (Candidate V)
    unfolding candidate filter_map keep
    candidates_for checkout entries running protocol =
        filter_map (candidate dictionary read checkout running)
          (keep (is_for_probe running protocol) entries)

    unfoldable pub select_target :
        PathBuf
        → List (ManifestEntry V)
        → Firmware V
        → Option McuTransport
        → Option V
        → Result (Unavailable V) (CartographerTarget V)
    unfolding choose candidates_for
    select_target checkout entries running transport plugin =
        elim (protocol_of transport (running).can_frequency) [
          | err e ↦ err e
          | ok protocol ↦ choose running plugin (candidates_for checkout entries running protocol)
        ]

    -- what reading the manifest came to, for one probe
    abbrev target_in :
        PathBuf
        → Result (Unavailable V) (List (ManifestEntry V))
        → Option V
        → Mcu
        → Firmware V
        → Result (Unavailable V) (CartographerTarget V)
    target_in checkout (err e) plugin mcu running = err e
    target_in checkout (ok entries) plugin mcu running =
        select_target checkout entries running mcu.transport plugin

    abbrev read_manifest :
        PathBuf → Result Text Text → Result (Unavailable V) (List (ManifestEntry V))
    read_manifest path (err reason) = err (unreadable path reason)
    read_manifest path (ok text) = elim (parse_manifest semver text) [
      | err e ↦ err (manifest path e)
      | ok entries ↦ ok entries
    ]

    abbrev ok_firmware : Option (Result Unsupported (Firmware V)) → Option (Firmware V)
    ok_firmware = known

    -- `read_text` is `read_to_string`
    unfoldable pub resolve_targets :
        (PathBuf → Result Text Text) → List Mcu → Option PathBuf → Option V → CartographerTargets V
    unfolding select_target identify
    resolve_targets read_text mcus checkout plugin = record {
      checkout = checkout;
      plugin = plugin;
      mcus =
          filter_map
            (λ mcu. chain (ok_firmware (identify semver mcu)) (λ firmware. some (
              mcu.name,
              elim checkout [
                | none ↦ err no_checkout
                | some path ↦
                    target_in path
                      (read_manifest (path ++ (codes "firmware_list.csv" ∷ []))
                        (read_text (path ++ (codes "firmware_list.csv" ∷ []))))
                      plugin mcu firmware
              ],
            )))
            mcus;
    }
