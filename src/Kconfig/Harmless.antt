-- ===== src/Kconfig/Harmless.antt =====
-- Every line of a Kconfig that passes validation is admissible (src/kconfig.rs).
use aldis.Prelude.{
  ℕ, suc, ◌≤◌, ltb, ◌==◌, not, ◌&&◌, ◌||◌, Bool, true, false, List, [], ◌∷◌, ◌++◌, ◌≡◌, ◌≢◌, ◌⊎◌,
  inl, inr, refl, arith, length, bytes_eq, bytes_eq_iff, some, ok, All, Bool-cases, Option-cases,
  Result-cases,
}
use aldis.Prelude.Text.{
  Text, codes, is_empty, all, strip_prefix, strip_prefix-exact, strip_suffix-append, starts_with,
  split_once, split_once-append, split, trim, trim_start, trim_end, is_space, is_digit,
  is_alphanumeric, is_hex_digit, one_of,
}
use aldis.Kconfig.{
  unquoted, is_symbol, is_number, without_sign, is_string_byte, is_directory_byte,
  is_board_directory, is_quoted_string, is_value, is_printable, check_assignment, check_line,
  check_lines, validate, max_bytes,
}
use aldis.Kconfig.Admissible.{
  IsDigit, IsAlphanumeric, IsHexDigit, IsPrintable, IsStringByte, IsWordOf, IsSymbol, IsValue,
  choice, decimal, negative, hexadecimal, quoted, IsDirectory, IsAssignment, IsAdmissible,
}

all-weaken :
    (P : ℕ → Type 0) (test : ℕ → Bool)
    → ((c : ℕ) → test c ≡ true → P c)
    → (s : Text) → all test s ≡ true
    → All P s
unfolding all
all-weaken P test f [] h = tt
all-weaken P test f (x ∷ s) h = (f x (ground arith), all-weaken P test f s (ground arith))

non_empty : (s : Text) → is_empty s ≡ false → s ≢ []
non_empty [] h e = cc h
non_empty (x ∷ s) h e = cc e

is_printable-IsPrintable : (c : ℕ) → is_printable c ≡ true → IsPrintable c
is_printable-IsPrintable c h = ground arith

is_string_byte-IsStringByte : (c : ℕ) → is_string_byte c ≡ true → IsStringByte c
unfolding one_of
is_string_byte-IsStringByte c h = ground arith

directory_byte : (c : ℕ) → is_directory_byte c ≡ true → IsAlphanumeric c ⊎ ((c ≡ b'_') ⊎ (c ≡ b'-'))
unfolding one_of
directory_byte c h = ground arith

symbol_byte : (c : ℕ) → (is_alphanumeric c || c == b'_') ≡ true → IsAlphanumeric c ⊎ (c ≡ b'_')
symbol_byte c h = ground arith

is_digit-IsDigit : (c : ℕ) → is_digit c ≡ true → IsDigit c
is_digit-IsDigit c h = ground arith

is_hex_digit-IsHexDigit : (c : ℕ) → is_hex_digit c ≡ true → IsHexDigit c
is_hex_digit-IsHexDigit c h = ground arith

-- a test of a text that is not empty
word-IsWordOf :
    (P : ℕ → Type 0) (test : ℕ → Bool)
    → ((c : ℕ) → test c ≡ true → P c)
    → (s : Text) → (not (is_empty s) && all test s) ≡ true
    → IsWordOf P s
word-IsWordOf P test f s h = (non_empty s (ground arith), all-weaken P test f s (ground arith))

unquoted-exact :
    (value inner : Text) → unquoted value ≡ some inner → value ≡ b'"' ∷ (inner ++ b'"' ∷ [])
unfolding unquoted
unquoted-exact value inner h = elim (Option-cases (strip_prefix (b'"' ∷ []) value)) [
  | inl none' ↦ let h' = rw (none', unquoted) at h in cc (h')
  | inr (rest, e) ↦
      let h' = rw (e, unquoted) at h in
      let whole = (strip_prefix-exact (b'"' ∷ []) value rest).0 e in
      cc (whole, strip_suffix-append (b'"' ∷ []) rest inner h')
]

is_quoted_string-IsValue : (value : Text) → is_quoted_string value ≡ true → IsValue value
unfolding is_quoted_string
is_quoted_string-IsValue value h = elim (Option-cases (unquoted value)) [
  | inl none' ↦ absurd (cc (rw (none', is_quoted_string) at h))
  | inr (inner, e) ↦
      let h' = rw (e, is_quoted_string) at h in
      quoted inner (unquoted-exact value inner e) (ground (arith, h')) (
        all-weaken IsStringByte is_string_byte is_string_byte-IsStringByte inner
          (ground (arith, h')))
]

is_number-IsValue : (value : Text) → is_number value ≡ true → IsValue value
unfolding is_number
is_number-IsValue value h = elim (Option-cases (strip_prefix (codes "0x") value)) [
  | inr (hex, e) ↦
      hexadecimal hex ((strip_prefix-exact (codes "0x") value hex).0 e)
        (word-IsWordOf IsHexDigit is_hex_digit is_hex_digit-IsHexDigit hex (rw (e, is_number) at h))
  | inl none' ↦
      let h' = rw (none', is_number) at h in
      elim (Option-cases (strip_prefix (b'-' ∷ []) value)) [
        | inr (digits, e) ↦
            negative digits ((strip_prefix-exact (b'-' ∷ []) value digits).0 e)
              (word-IsWordOf IsDigit is_digit is_digit-IsDigit digits (rw (e, without_sign) at h'))
        | inl none'' ↦ decimal (
            word-IsWordOf IsDigit is_digit is_digit-IsDigit value (rw (none'', without_sign) at h'))
      ]
]

||-eq-true : (a b : Bool) → (a || b) ≡ true → (a ≡ true) ⊎ (b ≡ true)
||-eq-true a b h = ground arith

is_value-IsValue : (value : Text) → is_value value ≡ true → IsValue value
unfolding is_value
is_value-IsValue value h = elim (||-eq-true _ (is_quoted_string value) h) [
  | inr quoted' ↦ is_quoted_string-IsValue value quoted'
  | inl h1 ↦ elim (||-eq-true _ (is_number value) h1) [
    | inr number ↦ is_number-IsValue value number
    | inl h2 ↦ elim (||-eq-true _ (bytes_eq value (codes "m")) h2) [
      | inr m ↦ choice (inr (inr ((bytes_eq_iff value (codes "m")).0 m)))
      | inl h3 ↦ elim (||-eq-true (bytes_eq value (codes "y")) _ h3) [
        | inl y ↦ choice (inl ((bytes_eq_iff value (codes "y")).0 y))
        | inr n ↦ choice (inr (inl ((bytes_eq_iff value (codes "n")).0 n)))
      ]
    ]
  ]
]

is_symbol-IsSymbol : (name : Text) → is_symbol name ≡ true → IsSymbol name
unfolding is_symbol
is_symbol-IsSymbol name h = elim (Option-cases (strip_prefix (codes "CONFIG_") name)) [
  | inl none' ↦ absurd (cc (rw (none', is_symbol) at h))
  | inr (rest, e) ↦ (
    rest,
    (strip_prefix-exact (codes "CONFIG_") name rest).0 e,
    word-IsWordOf (λ c. IsAlphanumeric c ⊎ (c ≡ b'_'))
        (λ byte. is_alphanumeric byte || byte == b'_') symbol_byte rest (rw (e, is_symbol) at h),
  )
]

is_board_directory-IsDirectory :
    (value : Text) → is_board_directory value ≡ true → IsDirectory value
unfolding is_board_directory
is_board_directory-IsDirectory value h = elim (Option-cases (unquoted value)) [
  | inl none' ↦ absurd (cc (rw (none', is_board_directory) at h))
  | inr (inner, e) ↦ (
    inner,
    unquoted-exact value inner e,
    word-IsWordOf (λ c. IsAlphanumeric c ⊎ ((c ≡ b'_') ⊎ (c ≡ b'-'))) is_directory_byte
        directory_byte inner (rw (e, is_board_directory) at h),
  )
]

check_assignment-IsAssignment :
    (name value : Text) {u : Unit {0}}
    → check_assignment name value ≡ ok u
    → IsAssignment (name ++ b'=' ∷ value)
unfolding check_assignment
check_assignment-IsAssignment name value h =
    let (symbol, safe) : (is_symbol name ≡ true) × (is_value value ≡ true) = ground arith in
    (
      name,
      value,
      refl,
      is_symbol-IsSymbol name symbol,
      is_value-IsValue value safe,
      elim (Bool-cases (bytes_eq name (codes "CONFIG_BOARD_DIRECTORY"))) [
        | inr other ↦
            inl (λ e. cc (other, (bytes_eq_iff name (codes "CONFIG_BOARD_DIRECTORY")).1 e))
        | inl board ↦ elim (Bool-cases (is_board_directory value)) [
          | inl one' ↦ inr (is_board_directory-IsDirectory value one')
          | inr several ↦ absurd (cc (rw (check_assignment, symbol, safe, board, several) at h))
        ]
      ],
    )

-- a line of spaces
trim_end-nonempty : (x : ℕ) (s : Text) → is_space x ≡ false → is_empty (trim_end (x ∷ s)) ≡ false
unfolding trim_end
trim_end-nonempty x s h = ground arith

blank :
    (line : Text)
    → all is_printable line ≡ true
    → is_empty (trim line) ≡ true
    → All (λ c. c ≡ 32) line
unfolding all trim trim_start
blank [] p h = tt
blank (x ∷ line) p h = elim (Bool-cases (is_space x)) [
  | inl space ↦ (ground arith, blank line (ground arith) (rw space at h))
  | inr other ↦ let h' = rw other at h in absurd (cc (h', trim_end-nonempty x line other))
]

starts-comment :
    (line : Text) → starts_with (b'#' ∷ []) line ≡ true → (rest : Text) × (line ≡ b'#' ∷ rest)
unfolding starts_with
starts-comment [] h = cc
starts-comment (x ∷ line) h = (line, ground arith)

line-IsAdmissible : (line : Text) {u : Unit {0}} → check_line line ≡ ok u → IsAdmissible line
unfolding check_line
line-IsAdmissible line h = elim (Bool-cases (is_empty (trim line))) [
  | inl empty ↦ inr (inl (blank line (ground arith) empty))
  | inr other ↦ elim (Bool-cases (starts_with (b'#' ∷ []) line)) [
    | inl comment ↦ inl (
      starts-comment line comment,
      ground arith,
      all-weaken IsPrintable is_printable is_printable-IsPrintable line (ground arith),
    )
    | inr setting ↦ elim (Option-cases (split_once b'=' line)) [
      | inl none' ↦ absurd (ground arith)
      | inr ((name, value), e) ↦
          rw (split_once-append b'=' line name value e)
            (inr (inr (check_assignment-IsAssignment name value (ground arith))))
    ]
  ]
]

lines-IsAdmissible :
    (number : ℕ) (lines : List Text) {u : Unit {0}}
    → check_lines number lines ≡ ok u
    → All IsAdmissible lines
unfolding check_lines
lines-IsAdmissible number [] h = tt
lines-IsAdmissible number (line ∷ lines) h = elim (Result-cases (check_line line)) [
  | inl (u, e) ↦
      (line-IsAdmissible line e, lines-IsAdmissible (suc number) lines (rw (e, check_lines) at h))
  | inr (reason, e) ↦ let h' = rw (e, check_lines) at h in cc (h')
]

-- Every line of a Kconfig that is accepted is a comment of printable bytes without a backslash, a
-- line of spaces, or an assignment: to a name of `CONFIG_` and letters, digits and underscores, of
-- `y`, `n`, `m`, a number, or a quoted text of printable bytes without two dots in a row and with none
-- of "$&*;<>?\^`{|}~ inside; the directory of a board is the name of one directory. And the text is at
-- most 256 KiB long.
pub validate-IsAdmissible :
    (kconfig : Text) {u : Unit {0}}
    → validate kconfig ≡ ok u
    → All IsAdmissible (split b'\n' kconfig) × (length kconfig ≤ max_bytes)
unfolding validate
validate-IsAdmissible kconfig h = elim (Bool-cases (ltb max_bytes (length kconfig))) [
  | inl large ↦ let h' = rw large at h in cc (h')
  | inr small ↦ (lines-IsAdmissible 1 (split b'\n' kconfig) (rw small at h), ground arith)
]
