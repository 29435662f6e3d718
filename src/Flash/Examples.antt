-- ===== src/Flash/Examples.antt =====
-- A firmware for 0x8000 and a device that holds one application.
use aldis.Prelude.Iter.{keep}
use aldis.Prelude.{
  arith, ◌++◌, replicate, length, ok, ℕ, ◌≤◌, ◌==◌, ◌&&◌, true, false, if◌then◌else◌, [], ◌∷◌, ◌≡◌,
  ◌↔◌, ◌⊎◌, refl, Bytes, take, drop, Option, none, some,
}
use aldis.Prelude.Text.{one_of}
use aldis.Prelude.Words.{u32_from_le, u32_to_le}
use aldis.Prelude.Chunks.{chunks}
use aldis.Flash.Picoboot.{
  Uf2Image, magic_start_0, magic_start_1, magic_end, flag_family_id_present, rp2040_family_id,
  decode_uf2,
}
use aldis.Flash.Picoboot.Contiguous.{AreBlocks, decode_uf2-AreBlocks}
use aldis.Flash.Stm32.{
  candidate_application_starts, table_of, holds_application, found, not_found,
  probe_application_start, maximum, expected_application_start, if_plausible,
  select_application_start,
}
use aldis.Flash.Stm32.Starts.{
  expected_application_start-greatest, probe_application_start_unique,
  select_application_start-exact,
}

-- stack pointer 0x20001000, reset vector 0x08008101
abbrev vectors : Bytes
vectors = 0x00 ∷ 0x10 ∷ 0x00 ∷ 0x20 ∷ 0x01 ∷ 0x81 ∷ 0x00 ∷ 0x08 ∷ []

vectors-start : expected_application_start vectors ≡ some 0x08008000
unfolding expected_application_start keep maximum
vectors-start = refl

expected_application_start-greatest_example :
    (table_of vectors ≡ true)
    × (one_of candidate_application_starts 0x08008000 ≡ true)
    × (0x08008000 ≤ u32_from_le (take 4 (drop 4 vectors)))
    × ((other : ℕ)
        → one_of candidate_application_starts other ≡ true
        → other ≤ u32_from_le (take 4 (drop 4 vectors))
        → other ≤ 0x08008000)
expected_application_start-greatest_example =
    expected_application_start-greatest vectors 0x08008000 vectors-start

abbrev device : ℕ → Option Bytes
device address = if address == 0x08008000 then some vectors else none

device-found : probe_application_start device ≡ found 0x08008000
unfolding probe_application_start keep
device-found = refl

probe_application_start_unique_example :
    ((start : ℕ)
      → probe_application_start device ≡ found start
      → (b : ℕ)
      → ((one_of candidate_application_starts b && holds_application device b) ≡ true)
        ↔ (b ≡ start))
    × ((probe_application_start device ≡ not_found)
        ↔ ((b : ℕ) → (one_of candidate_application_starts b && holds_application device b) ≡ false))
probe_application_start_unique_example = probe_application_start_unique device

abbrev installed : Option ℕ
installed = some 3

abbrev configured : Option ℕ
configured = some 2

select_application_start-exact_example :
    (select_application_start (1 ∷ 2 ∷ []) installed configured ≡ some 2) ↔ (
      (one_of (1 ∷ 2 ∷ []) 2 ≡ true)
      × ((installed ≡ some 2)
          ⊎ ((configured ≡ some 2) × (if_plausible (1 ∷ 2 ∷ []) installed ≡ none))))
select_application_start-exact_example =
    select_application_start-exact (1 ∷ 2 ∷ []) installed configured 2

-- One page for the start of an RP2040's flash.
abbrev one_block : Bytes
one_block =
    u32_to_le magic_start_0
    ++ (u32_to_le magic_start_1
        ++ (u32_to_le flag_family_id_present
            ++ (u32_to_le 0x10000000
                ++ (u32_to_le 256
                    ++ (u32_to_le 0
                        ++ (u32_to_le 1
                            ++ (u32_to_le rp2040_family_id
                                ++ (replicate 256 7
                                    ++ (replicate 220 0 ++ u32_to_le magic_end)))))))))

abbrev one_page : Uf2Image
one_page = record { address = 0x10000000; bytes = replicate 256 7 }

one_block-decoded : decode_uf2 one_block ≡ ok one_page
unfolding decode_uf2 chunks
one_block-decoded = refl

decode_uf2-AreBlocks_example :
    AreBlocks
      (length (chunks 512 one_block))
      0x10000000
      0
      0
      (chunks 512 one_block)
      (replicate 256 7)
decode_uf2-AreBlocks_example =
    decode_uf2-AreBlocks one_block one_page (omega arith) one_block-decoded
