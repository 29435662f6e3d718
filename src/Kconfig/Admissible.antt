-- ===== src/Kconfig/Admissible.antt =====
-- What a line of an accepted Kconfig is (src/kconfig.rs).
use aldis.Prelude.{ℕ, ◌≤◌, false, [], ◌∷◌, ◌++◌, ◌≡◌, ◌≢◌, ◌⊎◌, All}
use aldis.Prelude.Text.{Text, codes, contains}

abbrev pub IsDigit : ℕ → Type 0
IsDigit c = (48 ≤ c) × (c ≤ 57)

abbrev pub IsAlphanumeric : ℕ → Type 0
IsAlphanumeric c = IsDigit c ⊎ (((65 ≤ c) × (c ≤ 90)) ⊎ ((97 ≤ c) × (c ≤ 122)))

abbrev pub IsHexDigit : ℕ → Type 0
IsHexDigit c = IsDigit c ⊎ (((65 ≤ c) × (c ≤ 70)) ⊎ ((97 ≤ c) × (c ≤ 102)))

abbrev pub IsPrintable : ℕ → Type 0
IsPrintable c = (32 ≤ c) × (c ≤ 126)

-- Printable, and none of `"`, `$`, `&`, `*`, `;`, `<`, `>`, `?`, `\`, `^`, a backquote, `{`, `|`, `}`
-- and `~`.
abbrev pub IsStringByte : ℕ → Type 0
IsStringByte c =
    (32 ≤ c)
    × (c ≤ 126)
    × (c ≢ 34)
    × (c ≢ 36)
    × (c ≢ 38)
    × (c ≢ 42)
    × (c ≢ 59)
    × (c ≢ 60)
    × (c ≢ 62)
    × (c ≢ 63)
    × (c ≢ 92)
    × (c ≢ 94)
    × (c ≢ 96)
    × (c ≢ 123)
    × (c ≢ 124)
    × (c ≢ 125)
    × (c ≢ 126)

-- A text that is not empty, of such bytes.
abbrev pub IsWordOf : (ℕ → Type 0) → Text → Type 0
IsWordOf P s = (s ≢ []) × All P s

-- `CONFIG_` and letters, digits and underscores
abbrev pub IsSymbol : Text → Type 0
IsSymbol name =
    (rest : Text) × (name ≡ codes "CONFIG_" ++ rest)
    × IsWordOf (λ c. IsAlphanumeric c ⊎ (c ≡ b'_')) rest

pub data IsValue (value : Text) : Type 0 where
  choice : ((value ≡ codes "y") ⊎ ((value ≡ codes "n") ⊎ (value ≡ codes "m"))) → IsValue value
  decimal : IsWordOf IsDigit value → IsValue value
  negative : (digits : Text) → value ≡ b'-' ∷ digits → IsWordOf IsDigit digits → IsValue value
  hexadecimal :
      (digits : Text) → value ≡ codes "0x" ++ digits → IsWordOf IsHexDigit digits → IsValue value
  quoted :
      (inner : Text)
      → value ≡ b'"' ∷ (inner ++ b'"' ∷ [])
      → contains (codes "..") inner ≡ false
      → All IsStringByte inner
      → IsValue value

-- a quoted name of one directory
abbrev pub IsDirectory : Text → Type 0
IsDirectory value =
    (inner : Text) × (value ≡ b'"' ∷ (inner ++ b'"' ∷ []))
    × IsWordOf (λ c. IsAlphanumeric c ⊎ ((c ≡ b'_') ⊎ (c ≡ b'-'))) inner

-- An assignment to one of Kconfig's symbols; that of the directory of a board names one directory.
abbrev pub IsAssignment : Text → Type 0
IsAssignment line =
    (name : Text) × (value : Text) × (line ≡ name ++ b'=' ∷ value)
    × IsSymbol name
    × IsValue value
    × ((name ≢ codes "CONFIG_BOARD_DIRECTORY") ⊎ IsDirectory value)

-- A comment of printable bytes without a backslash, a line of spaces, or an assignment.
abbrev pub IsAdmissible : Text → Type 0
IsAdmissible line =
    (((rest : Text) × (line ≡ b'#' ∷ rest))
      × (contains (b'\\' ∷ []) line ≡ false)
      × All IsPrintable line)
    ⊎ (All (λ c. c ≡ 32) line ⊎ IsAssignment line)
