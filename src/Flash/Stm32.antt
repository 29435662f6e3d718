-- ===== src/Flash/Stm32.antt =====
-- Where an STM32 application belongs (src/flash/stm32_dfu.rs): the candidate addresses, what the
-- Kconfig, the device and the firmware's vector table say. Reading the device is a parameter.
pub mod Starts
use aldis.Prelude.{
  ℕ, zero, suc, ◌+◌, ◌%◌, ◌==◌, ltb, leb, ◌&&◌, not, Bool, true, false, if◌then◌else◌, List, [],
  ◌∷◌, ◌++◌, map, Bytes, length, take, drop, bytes_eq, Option, none, some, Result, ok, err,
}
use aldis.Prelude.Iter.{keep}
use aldis.Prelude.Text.{Text, codes, any, all, lines, trim, one_of}
use aldis.Prelude.Words.{u32_from_le}

abbrev pub sram_start : ℕ
sram_start = 0x20000000

abbrev pub sram_end : ℕ
sram_end = 0x20200000

abbrev pub flash_start : ℕ
flash_start = 0x08000000

abbrev pub flash_end : ℕ
flash_end = 0x08200000

abbrev pub core_vectors : ℕ
core_vectors = 16

abbrev pub flash_start_offsets : List (Text × ℕ)
flash_start_offsets =
    (codes "800", 0x800)
    ∷ (codes "1000", 0x1000)
    ∷ (codes "2000", 0x2000)
    ∷ (codes "4000", 0x4000)
    ∷ (codes "5000", 0x5000)
    ∷ (codes "7000", 0x7000)
    ∷ (codes "8000", 0x8000)
    ∷ (codes "8800", 0x8800)
    ∷ (codes "9000", 0x9000)
    ∷ (codes "C000", 0xC000)
    ∷ (codes "10000", 0x10000)
    ∷ (codes "20000", 0x20000)
    ∷ (codes "20200", 0x20200)
    ∷ (codes "0000", 0)
    ∷ []

abbrev pub candidate_application_starts : List ℕ
candidate_application_starts = map (λ entry. flash_start + entry.1) flash_start_offsets

-- whether a line selects the symbol
unfoldable pub is_enabled : Text → Text → Bool
is_enabled kconfig symbol =
    any (λ line. bytes_eq (trim line) (codes "CONFIG_STM32_FLASH_START_" ++ (symbol ++ codes "=y")))
      (lines kconfig)

-- The error is `InvalidFlashStartConfiguration`; the target is its address.
unfoldable pub target_from_kconfig : Text → Result (Unit {0}) ℕ
unfolding is_enabled keep
target_from_kconfig kconfig =
    elim (map (λ (entry : Text × ℕ). entry.1)
      (keep (λ entry. is_enabled kconfig entry.0) flash_start_offsets)) [
        | [] ↦ err tt
        | offset ∷ [] ↦ ok (flash_start + offset)
        | offset ∷ other ∷ rest ↦ err tt
      ]

-- `(low..high).contains(&x)`
abbrev pub within : ℕ → ℕ → ℕ → Bool
within low high x = leb low x && ltb x high

abbrev pub is_plausible_vector_table : ℕ → ℕ → Bool
is_plausible_vector_table stack_pointer reset_vector =
    within sram_start sram_end stack_pointer
    && stack_pointer % 4 == 0
    && within flash_start flash_end reset_vector
    && reset_vector % 2 == 1

abbrev pub table_of : Bytes → Bool
table_of bytes =
    is_plausible_vector_table (u32_from_le (take 4 bytes)) (u32_from_le (take 4 (drop 4 bytes)))

pub data ApplicationProbeResult : Type 0 where
  found : ℕ → ApplicationProbeResult
  not_found : ApplicationProbeResult
  ambiguous : List ℕ → ApplicationProbeResult

-- the test of one candidate
abbrev pub holds_application : (ℕ → Option Bytes) → ℕ → Bool
holds_application read address = elim (read address) [ none ↦ false | some bytes ↦ table_of bytes ]

abbrev pub probed : List ℕ → ApplicationProbeResult
probed [] = not_found
probed (start ∷ []) = found start
probed (start ∷ other ∷ rest) = ambiguous (start ∷ other ∷ rest)

unfoldable pub probe_application_start : (ℕ → Option Bytes) → ApplicationProbeResult
unfolding keep
probe_application_start read = probed (keep (holds_application read) candidate_application_starts)

-- `max` of the candidates
unfoldable pub maximum : List ℕ → Option ℕ
maximum [] = none
maximum (x ∷ xs) = elim (maximum xs) [ none ↦ some x | some m ↦ some (if leb x m then m else x) ]

unfoldable pub expected_application_start : Bytes → Option ℕ
unfolding maximum keep
expected_application_start firmware =
    if ltb (length firmware) 8
    then none
    else if not (table_of firmware)
    then none
    else maximum (
        keep (λ candidate. leb candidate (u32_from_le (take 4 (drop 4 firmware))))
          candidate_application_starts)

-- `as_chunks::<4>().0` as words
unfoldable pub words_of : Bytes → List ℕ
words_of (a ∷ b ∷ c ∷ d ∷ rest) = u32_from_le (a ∷ b ∷ c ∷ d ∷ []) ∷ words_of rest
words_of _ = []

abbrev pub u32_max : ℕ
u32_max = 4294967295

-- a number that does not fit stays at the end of `u32`
abbrev pub saturated : ℕ → ℕ
saturated n = if leb n u32_max then n else u32_max

-- Every handler lies in an image of `length` bytes at `base`.
abbrev pub handlers_fit : List ℕ → ℕ → ℕ → Bool
handlers_fit handlers image_length base =
    all (within base (saturated (base + saturated image_length))) handlers

abbrev pub starts_of : List ℕ → ℕ → List ℕ
starts_of [] image_length = []
starts_of (stack_pointer ∷ []) image_length = []
starts_of (stack_pointer ∷ reset_vector ∷ rest) image_length =
    if not (is_plausible_vector_table stack_pointer reset_vector)
    then []
    else keep
        (handlers_fit (keep (within flash_start flash_end) (reset_vector ∷ rest)) image_length)
        candidate_application_starts

unfoldable pub plausible_application_starts : Bytes → List ℕ
unfolding words_of keep
plausible_application_starts firmware =
    starts_of (take core_vectors (words_of firmware)) (length firmware)

-- `[installed, configured].into_iter().flatten().find(..)`
abbrev pub if_plausible : List ℕ → Option ℕ → Option ℕ
if_plausible plausible none = none
if_plausible plausible (some start) = if one_of plausible start then some start else none

unfoldable pub select_application_start : List ℕ → Option ℕ → Option ℕ → Option ℕ
select_application_start plausible installed configured = elim (if_plausible plausible installed) [
  | some start ↦ some start
  | none ↦ if_plausible plausible configured
]
