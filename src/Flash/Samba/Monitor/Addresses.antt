-- ===== src/Flash/Samba/Monitor/Addresses.antt =====
-- The addresses in commands of the monitor are eight digits of radix 16 (src/flash/samba.rs).
use aldis.Prelude.{
  ℕ, ◌+◌, ◌-◌, ◌*◌, ◌/◌, ◌%◌, ◌^◌, ◌<◌, ltb, if◌then◌else◌, List, [], ◌∷◌, ◌≡◌, ap, ◌∙◌, refl, All,
  map, arith,
}
use aldis.Prelude.Text.{Text}
use aldis.Flash.Samba.Monitor.{upper_digit, hex8}

-- the number that digits of radix 16 write, after one that is known
abbrev pub number_after : ℕ → Text → ℕ
number_after n [] = n
number_after n (c ∷ s) = number_after (16 * n + (if ltb c b'A' then c - b'0' else c - 55)) s

digit_back :
    (d : ℕ)
    → d < 16
    → (if ltb (upper_digit d) b'A' then upper_digit d - b'0' else upper_digit d - 55) ≡ d
digit_back d h = ground arith

next_digit :
    (d n : ℕ) (s : Text) → d < 16 → number_after n (upper_digit d ∷ s) ≡ number_after (16 * n + d) s
next_digit d n s h = ap (λ v. number_after (16 * n + v) s) (digit_back d h)

-- the same of the digits' values
abbrev total_after : ℕ → List ℕ → ℕ
total_after n [] = n
total_after n (d ∷ ds) = total_after (16 * n + d) ds

number_after-map :
    (ds : List ℕ) (n : ℕ)
    → All (λ d. d < 16) ds
    → number_after n (map upper_digit ds) ≡ total_after n ds
number_after-map [] n h = refl
number_after-map (d ∷ ds) n h =
    next_digit d n (map upper_digit ds) h.0 ∙ number_after-map ds (16 * n + d) h.1

abbrev digits : ℕ → List ℕ
digits v =
    (v / 0x10000000 % 16)
    ∷ (v / 0x1000000 % 16)
    ∷ (v / 0x100000 % 16)
    ∷ (v / 0x10000 % 16)
    ∷ (v / 0x1000 % 16)
    ∷ (v / 0x100 % 16)
    ∷ (v / 0x10 % 16)
    ∷ (v % 16)
    ∷ []

small_digits : (n : ℕ) → All (λ d. d < 16) (digits n)
small_digits n = (
  omega arith,
  (
    omega arith,
    (omega arith, (omega arith, (omega arith, (omega arith, (omega arith, (omega arith, tt)))))),
  ),
)

digits_total : (n : ℕ) → n < 2 ^ 32 → total_after 0 (digits n) ≡ n
digits_total n h = omega arith

pub hex8-number : (n : ℕ) → n < 2 ^ 32 → number_after 0 (hex8 n) ≡ n
hex8-number n h = number_after-map (digits n) 0 (small_digits n) ∙ digits_total n h
