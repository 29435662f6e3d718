-- ===== src/Katapult/Assembler/Sync.antt =====
-- What is discarded does not depend on how the bytes were cut into chunks.

use aldis.Prelude.{
  ℕ, suc, ◌-◌, ◌<◌, ◌==◌, if◌then◌else◌, true, false, [], ◌∷◌, ◌++◌, ◌≡◌, ◌⊎◌, inl, inr, refl, ◌∙◌,
  arith, Bytes, length, drop, Bool-cases, Option-cases,
}
use aldis.Katapult.Assembler.{is_header, header_position, ends_with_first, discard_until_header}

-- `discard_until_header` in one pass
abbrev pub sync : Bytes → Bytes
sync [] = []
sync (x ∷ []) = if x == 0x01 then x ∷ [] else []
sync (x ∷ y ∷ rest) = if is_header x y then x ∷ y ∷ rest else sync (y ∷ rest)

ends_with-length : (b : Bytes) → ends_with_first b ≡ true → 0 < length b
unfolding ends_with_first
ends_with-length [] h = cc
ends_with-length (x ∷ b) h = omega arith

drop-minus_one :
    (x : ℕ) (b : Bytes) → 0 < length b → drop (suc (length b) - 1) (x ∷ b) ≡ drop (length b - 1) b
drop-minus_one x [] h = absurd (omega arith)
drop-minus_one x (y ∷ b) h =
    let whole : suc (length (y ∷ b)) - 1 ≡ suc (length b) = omega arith in
    let part : length (y ∷ b) - 1 ≡ length b = omega arith in rw (whole, part)

discard-skip :
    (x y : ℕ) (rest : Bytes)
    → is_header x y ≡ false
    → discard_until_header (x ∷ y ∷ rest) ≡ discard_until_header (y ∷ rest)
unfolding discard_until_header
discard-skip x y rest h = elim (Option-cases (header_position (y ∷ rest))) [
  | inl none' ↦ ground (arith, drop-minus_one x (y ∷ rest))
  | inr (k, some') ↦ ground arith
]

-- The code, with its search for a header and its kept last byte, is that pass.
pub discard-sync : (b : Bytes) → discard_until_header b ≡ sync b
unfolding discard_until_header
discard-sync [] = refl
discard-sync (x ∷ []) = ground arith
discard-sync (x ∷ y ∷ rest) = elim (Bool-cases (is_header x y)) [
  | inl here ↦ ground arith
  | inr later ↦ rw later (discard-skip x y rest later ∙ discard-sync (y ∷ rest))
]

pub sync-append : (a b : Bytes) → sync (sync a ++ b) ≡ sync (a ++ b)
sync-append [] b = refl
sync-append (x ∷ []) [] = ground arith
sync-append (x ∷ []) (y ∷ b) = ground arith
sync-append (x ∷ y ∷ rest) b = ground (arith, sync-append (y ∷ rest) b)

-- What is kept begins with a header, or it is at most one byte.
pub sync-cases : (a : Bytes) → (length (sync a) < 2) ⊎ ((r : Bytes) × (sync a ≡ 0x01 ∷ 0x88 ∷ r))
sync-cases [] = inl (omega arith)
sync-cases (x ∷ []) = inl (ground arith)
sync-cases (x ∷ y ∷ rest) = elim (Bool-cases (is_header x y)) [
  | inl yes' ↦ inr (rest, ground arith)
  | inr not' ↦ rw not' (sync-cases (y ∷ rest))
]
