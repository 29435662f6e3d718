-- ===== src/Kconfig.antt =====
-- Validation of the Kconfig that an MCU reports (src/kconfig.rs). A text is the list of its bytes;
-- the reasons are the source's messages, by name.
pub mod Admissible
pub mod Harmless
mod Examples
use aldis.Prelude.{
  ℕ, zero, suc, ◌+◌, ◌-◌, ◌*◌, ltb, leb, ◌==◌, if◌then◌else◌, not, ◌&&◌, ◌||◌, Bool, true, false,
  List, [], ◌∷◌, ◌++◌, length, take, get_or, bytes_eq, Option, none, some, Result, ok, err,
}
use aldis.Prelude.Text.{
  Text, codes, is_empty, all, strip_prefix, strip_suffix, starts_with, contains, split_once, split,
  trim, is_digit, is_alphanumeric, is_hex_digit, one_of,
}

pub data Reason : Type 0 where
  longer_than_1024 control_or_non_ascii comment_backslash missing_equals not_a_symbol unsafe_value
        not_one_directory :
      Reason

pub data InvalidKconfig : Type 0 where
  too_large : ℕ → InvalidKconfig
  -- line, reason, text
  bad_line : ℕ → Reason → Text → InvalidKconfig

abbrev pub max_bytes : ℕ
max_bytes = 256 * 1024

abbrev pub max_line_len : ℕ
max_line_len = 1024

abbrev pub max_display_len : ℕ
max_display_len = 80

-- `strip_prefix('"')` and then `strip_suffix('"')`
unfoldable pub unquoted : Text → Option Text
unquoted value = elim (strip_prefix (b'"' ∷ []) value) [
  | none ↦ none
  | some rest ↦ strip_suffix (b'"' ∷ []) rest
]

abbrev pub is_directory_byte : ℕ → Bool
is_directory_byte byte = is_alphanumeric byte || one_of (codes "_-") byte

unfoldable pub is_board_directory : Text → Bool
unfolding unquoted
is_board_directory value = elim (unquoted value) [
  | none ↦ false
  | some directory ↦ not (is_empty directory) && all is_directory_byte directory
]

unfoldable pub is_symbol : Text → Bool
is_symbol name = elim (strip_prefix (codes "CONFIG_") name) [
  | none ↦ false
  | some rest ↦ not (is_empty rest) && all (λ byte. is_alphanumeric byte || byte == b'_') rest
]

-- `value.strip_prefix('-').unwrap_or(value)`
abbrev pub without_sign : Text → Text
without_sign value = elim (strip_prefix (b'-' ∷ []) value) [ some digits ↦ digits | none ↦ value ]

unfoldable pub is_number : Text → Bool
is_number value = elim (strip_prefix (codes "0x") value) [
  | some hex ↦ not (is_empty hex) && all is_hex_digit hex
  | none ↦ not (is_empty (without_sign value)) && all is_digit (without_sign value)
]

abbrev pub is_string_byte : ℕ → Bool
is_string_byte byte = is_alphanumeric byte || one_of (codes " !#%'()+,-./:=@[]_") byte

unfoldable pub is_quoted_string : Text → Bool
unfolding unquoted
is_quoted_string value = elim (unquoted value) [
  | none ↦ false
  | some inner ↦ not (contains (codes "..") inner) && all is_string_byte inner
]

unfoldable pub is_value : Text → Bool
unfolding is_number is_quoted_string
is_value value =
    bytes_eq value (codes "y")
    || bytes_eq value (codes "n")
    || bytes_eq value (codes "m")
    || is_number value
    || is_quoted_string value

abbrev pub is_printable : ℕ → Bool
is_printable byte = leb 0x20 byte && leb byte 0x7e

unfoldable pub check_assignment : Text → Text → Result Reason (Unit {0})
unfolding is_symbol is_value is_board_directory
check_assignment name value =
    if not (is_symbol name)
    then err not_a_symbol
    else if not (is_value value)
    then err unsafe_value
    else if bytes_eq name (codes "CONFIG_BOARD_DIRECTORY") && not (is_board_directory value)
    then err not_one_directory
    else ok tt

unfoldable pub check_line : Text → Result Reason (Unit {0})
unfolding check_assignment
check_line line =
    if ltb max_line_len (length line)
    then err longer_than_1024
    else if not (all is_printable line)
    then err control_or_non_ascii
    else if is_empty (trim line)
    then ok tt
    else if starts_with (b'#' ∷ []) line
    then (if contains (b'\\' ∷ []) line then err comment_backslash else ok tt)
    else elim (split_once b'=' line) [
      | none ↦ err missing_equals
      | some (name, value) ↦ check_assignment name value
    ]

-- `is_char_boundary` below the end: not a continuation byte
abbrev pub is_char_boundary : Text → ℕ → Bool
is_char_boundary line end = not (leb 0x80 (get_or line end 0) && ltb (get_or line end 0) 0xc0)

-- the loop from `end` down; index 0 is a boundary
unfoldable pub boundary : Text → ℕ → ℕ
boundary line zero = zero
boundary line (suc end) =
    let lower = boundary line end in if is_char_boundary line (suc end) then suc end else lower

unfoldable pub truncated : Text → Text
unfolding boundary
truncated line =
    if leb (length line) max_display_len
    then line
    else take (boundary line max_display_len) line ++ codes "..."

-- the loop over the lines, with the number of the next one
unfoldable pub check_lines : ℕ → List Text → Result InvalidKconfig (Unit {0})
unfolding check_line truncated
check_lines number [] = ok tt
check_lines number (line ∷ lines) =
    let rest = check_lines (suc number) lines in
    elim (check_line line) [
      | ok _ ↦ rest
      | err reason ↦ err (bad_line number reason (truncated line))
    ]

unfoldable pub validate : Text → Result InvalidKconfig (Unit {0})
unfolding check_lines
validate kconfig =
    if ltb max_bytes (length kconfig)
    then err (too_large (length kconfig))
    else check_lines 1 (split b'\n' kconfig)
