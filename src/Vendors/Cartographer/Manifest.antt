-- ===== src/Vendors/Cartographer/Manifest.antt =====
-- The list of images in a cartographer_firmware clone, `firmware_list.csv` (src/cartographer.rs).
use aldis.Prelude.{
  ℕ, zero, suc, ◌||◌, not, Bool, if◌then◌else◌, List, [], ◌∷◌, map, bytes_eq, Option, none, some,
  Result, ok, err, and_then,
}
use aldis.Prelude.Text.{Text, codes, is_empty, lines, split, trim, one_of}
use aldis.Prelude.Iter.{keep, filter_map}
use aldis.Prelude.Strings.{to_ascii_lowercase}
use aldis.Eligibility.{Semver, chain, parse_u64}

pub record ManifestEntry (V : Type 0) : Type 0 where
  pub path : Text
  pub probe_version : Text
  pub protocol : Text
  pub can_speed : Option ℕ
  pub lite : Bool
  pub version : V
  pub min_plugin : Option V

pub data ManifestError : Type 0 where
  empty : ManifestError
  missing_column : Text → ManifestError

-- `trim_end_matches('\r')`
unfoldable pub without_returns : Text → Text
without_returns [] = []
without_returns (x ∷ s) = elim (without_returns s) [
  | [] ↦ if one_of (13 ∷ []) x then [] else x ∷ []
  | ◌∷◌ y rest ↦ x ∷ y ∷ rest
]

-- `position`
unfoldable pub position : Text → List Text → Option ℕ
position name [] = none
position name (c ∷ columns) =
    let rest = position name columns in
    if bytes_eq c name then some 0 else elim rest [ none ↦ none | some n ↦ some (suc n) ]

abbrev column : List Text → Text → Result ManifestError ℕ
column header name = elim (position name header) [
  | some i ↦ ok i
  | none ↦ err (missing_column name)
]

-- a field of a row, empty where the row is too short
abbrev field : List Text → ℕ → Text
field [] i = []
field (f ∷ fields) zero = f
field (f ∷ fields) (suc i) = field fields i

abbrev is_yes : Text → Bool
is_yes s =
    bytes_eq s (codes "yes")
    || bytes_eq s (codes "true")
    || bytes_eq s (codes "1")
    || bytes_eq s (codes "y")

-- an empty field, or one that must parse
abbrev optional : {A : Type 0} → (Text → Option A) → Text → Option (Option A)
optional parse [] = some none
optional parse (x ∷ s) = elim (parse (x ∷ s)) [ none ↦ none | some a ↦ some (some a) ]

-- where the columns are
pub record Columns : Type 0 where
  pub filepath : ℕ
  pub firmware_type : ℕ
  pub protocol_at : ℕ
  pub process : ℕ
  pub probe : ℕ
  pub firmware_version : ℕ
  pub speed : ℕ
  pub is_lite_at : ℕ
  pub min_plugin_version : ℕ

unfoldable pub columns_of : List Text → Result ManifestError Columns
unfolding position
columns_of header = and_then (column header (codes "filepath")) (λ a.
    and_then (column header (codes "firmware_type")) (λ b.
      and_then (column header (codes "protocol")) (λ c.
        and_then (column header (codes "process")) (λ d.
          and_then (column header (codes "probe_version")) (λ e.
            and_then (column header (codes "firmware_version")) (λ f.
              and_then (column header (codes "can_speed")) (λ g.
                and_then (column header (codes "is_lite")) (λ h.
                  and_then (column header (codes "min_plugin_version")) (λ i. ok (record {
                    filepath = a;
                    firmware_type = b;
                    protocol_at = c;
                    process = d;
                    probe = e;
                    firmware_version = f;
                    speed = g;
                    is_lite_at = h;
                    min_plugin_version = i;
                  }))))))))))

module _ {V : Type 0} (semver : Semver V) where
  -- the entry of the fields of a row
  abbrev entry_of : Columns → List Text → Option (ManifestEntry V)
  entry_of c fields =
      if not (bytes_eq (field fields c.process) (codes "Update"))
        || not (bytes_eq (field fields c.firmware_type) (codes "Cartographer"))
      then none
      else chain (optional semver.parse (field fields c.min_plugin_version)) (λ min_plugin.
        chain (optional parse_u64 (field fields c.speed)) (λ can_speed.
          chain (semver.parse (field fields c.firmware_version)) (λ version. some (record {
            path = field fields c.filepath;
            probe_version = field fields c.probe;
            protocol = field fields c.protocol_at;
            can_speed = can_speed;
            lite = is_yes (to_ascii_lowercase (field fields c.is_lite_at));
            version = version;
            min_plugin = min_plugin;
          }))))

  -- A row with a quotation mark is skipped.
  unfoldable pub parse_row : Columns → Text → Option (ManifestEntry V)
  unfolding one_of split trim
  parse_row c line = if one_of line b'"' then none else entry_of c (map trim (split b',' line))

  abbrev rows : List Text → Result ManifestError (List (ManifestEntry V))
  rows [] = err empty
  rows (header ∷ later) =
      and_then (columns_of (map trim (split b',' header)))
        (λ c. ok (filter_map (parse_row c) (keep (λ line. not (is_empty (trim line))) later)))

  unfoldable pub parse_manifest : Text → Result ManifestError (List (ManifestEntry V))
  unfolding lines without_returns columns_of parse_row filter_map keep
  parse_manifest text = rows (map without_returns (lines text))
