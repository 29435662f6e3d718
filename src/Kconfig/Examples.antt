-- ===== src/Kconfig/Examples.antt =====
-- Settings that are accepted and lines that are refused.
use aldis.Prelude.{◌≤◌, ◌≡◌, refl, ok, err, All, length, bytes_eq}
use aldis.Prelude.Text.{
  Text, codes, split, all, trim, starts_with, contains, split_once, strip_prefix, strip_suffix,
  one_of,
}
use aldis.Kconfig.{
  validate, check_line, max_bytes, comment_backslash, unsafe_value, not_one_directory,
}
use aldis.Kconfig.Admissible.{IsAdmissible}
use aldis.Kconfig.Harmless.{validate-IsAdmissible}

abbrev board : Text
board =
    codes
      "# a board\nCONFIG_MACH_STM32=y\nCONFIG_CLOCK_FREQ=0x5dc\nCONFIG_INITIAL_PINS=\"!PA1,PB2\"\n"

board-accepted : validate board ≡ ok tt
unfolding validate split all trim starts_with contains split_once strip_prefix bytes_eq strip_suffix
    one_of
board-accepted = refl

validate-IsAdmissible_example : All IsAdmissible (split 10 board) × (length board ≤ max_bytes)
validate-IsAdmissible_example = validate-IsAdmissible board board-accepted

shell_refused : check_line (codes "CONFIG_MCU=\"$(shell reboot)\"") ≡ err unsafe_value
unfolding check_line all trim starts_with contains split_once strip_prefix bytes_eq strip_suffix
    one_of
shell_refused = refl

continued_refused : check_line (codes "# note \\") ≡ err comment_backslash
unfolding check_line all trim starts_with contains split_once strip_prefix bytes_eq strip_suffix
    one_of
continued_refused = refl

two_paths_refused : check_line (codes "CONFIG_BOARD_DIRECTORY=\"src x\"") ≡ err not_one_directory
unfolding check_line all trim starts_with contains split_once strip_prefix bytes_eq strip_suffix
    one_of
two_paths_refused = refl
