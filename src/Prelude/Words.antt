-- ===== src/Prelude/Words.antt =====
-- Little-endian words: `to_le_bytes`, `from_le_bytes` and their round trips.
use Prim.Native.Nat.{ℕ, ◌+◌, ◌*◌, ◌/◌, ◌%◌, ◌^◌, ◌<◌}
use mathlib.Core.Path.{◌≡◌}
use mathlib.Core.List.{[], ◌∷◌}
use native.Mathlib.Omega.{arith}
use aldis.Prelude.Lists.{Bytes, AreBytes, get_or, take}

-- `x << k` in a type of `w` bits
abbrev pub shl : ℕ → ℕ → ℕ → ℕ
shl w x k = x * 2 ^ k % 2 ^ w

-- `x >> k`
abbrev pub shr : ℕ → ℕ → ℕ
shr x k = x / 2 ^ k

abbrev pub u16_to_le : ℕ → Bytes
u16_to_le v = v % 256 ∷ (v / 256 % 256) ∷ []

abbrev pub u16_from_le : ℕ → ℕ → ℕ
u16_from_le a b = a + 256 * b

abbrev pub u32_to_le : ℕ → Bytes
u32_to_le v = v % 256 ∷ (v / 256 % 256) ∷ (v / 65536 % 256) ∷ (v / 16777216 % 256) ∷ []

-- on the first four bytes of a slice
abbrev pub u32_from_le : Bytes → ℕ
u32_from_le bs =
    get_or bs 0 0 + 256 * get_or bs 1 0 + 65536 * get_or bs 2 0 + 16777216 * get_or bs 3 0

pub u16_from_le-to_le : (v : ℕ) → v < 65536 → u16_from_le (v % 256) (v / 256 % 256) ≡ v
u16_from_le-to_le v h = omega arith

pub u32_from_le-to_le : (v : ℕ) → v < 4294967296 → u32_from_le (u32_to_le v) ≡ v
u32_from_le-to_le v h = omega arith

pub u32_to_le-AreBytes : (v : ℕ) → AreBytes (u32_to_le v)
u32_to_le-AreBytes v = omega arith

pub u16_to_le-AreBytes : (v : ℕ) → AreBytes (u16_to_le v)
u16_to_le-AreBytes v = omega arith

pub u32_from_le-lt : (bs : Bytes) → AreBytes bs → u32_from_le (take 4 bs) < 4294967296
u32_from_le-lt (a ∷ b ∷ c ∷ d ∷ bs) h = omega arith
u32_from_le-lt [] h = omega arith
u32_from_le-lt (a ∷ []) h = omega arith
u32_from_le-lt (a ∷ b ∷ []) h = omega arith
u32_from_le-lt (a ∷ b ∷ c ∷ []) h = omega arith
