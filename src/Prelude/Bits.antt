-- ===== src/Prelude/Bits.antt =====
-- `^` and `|` stay within the width of their arguments.
use Prim.Native.Nat.{ℕ, zero, suc, ◌/◌, ◌%◌, ◌^◌, ◌<◌}
use Prim.Native.Nat.{max, differ, digits, bit_or, bit_xor, bit_or-bitwise, bit_xor-bitwise}
use native.Mathlib.Nat.{pow-suc}
use native.Mathlib.Omega.{arith}

module _ (f : ℕ → ℕ → ℕ) (digit : (a b : ℕ) → a < 2 → b < 2 → f a b < 2) where
  digits-lt : (k n a b : ℕ) → a < 2 ^ k → b < 2 ^ k → digits (λ y. y) f n a b < 2 ^ k
  digits-lt k zero a b p q = q
  digits-lt k (suc n) zero b p q = q
  digits-lt zero (suc n) (suc a) b p q = absurd (omega arith)
  digits-lt (suc k) (suc n) (suc a) b p q = omega (
    arith,
    pow-suc 2 k,
    digits-lt k n (suc a / 2) (b / 2) (omega (arith, pow-suc 2 k)) (omega (arith, pow-suc 2 k)),
    digit (suc a % 2) (b % 2) (omega arith) (omega arith),
  )

differ-lt : (a b : ℕ) → a < 2 → b < 2 → differ a b < 2
differ-lt zero zero p q = omega arith
differ-lt zero (suc b) p q = omega arith
differ-lt (suc a) zero p q = omega arith
differ-lt (suc a) (suc b) p q = ground arith

pub bit_xor-lt : (k a b : ℕ) → a < 2 ^ k → b < 2 ^ k → bit_xor a b < 2 ^ k
bit_xor-lt k a b p q = simp bit_xor-bitwise (digits-lt differ differ-lt k a a b p q)

pub bit_or-lt : (k a b : ℕ) → a < 2 ^ k → b < 2 ^ k → bit_or a b < 2 ^ k
bit_or-lt k a b p q = simp bit_or-bitwise (digits-lt max (λ x y h j. omega arith) k a a b p q)
