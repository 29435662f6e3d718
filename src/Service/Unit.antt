-- ===== src/Service/Unit.antt =====
-- Which names are names of Klipper's service.
use aldis.Prelude.{
  ℕ, ◌≤◌, true, [], ◌∷◌, ◌++◌, ◌⊎◌, ◌≡◌, ◌↔◌, arith, ap, sym, ◌∙◌, length, ok, All, Option-cases,
  inl, inr,
}
use aldis.Prelude.Text.{one_of, Text, codes, all-All, All-all, strip_prefix, strip_prefix-exact}
use aldis.Service.{KlipperUnit, parse_unit, is_unit_byte}

-- a letter, a digit, or one of `_`, `.`, `-` and `@`
abbrev pub IsUnitByte : ℕ → Type 0
IsUnitByte c =
    ((b'a' ≤ c) × (c ≤ b'z'))
    ⊎ (((b'A' ≤ c) × (c ≤ b'Z'))
        ⊎ (((b'0' ≤ c) × (c ≤ b'9')) ⊎ ((c ≡ b'_') ⊎ ((c ≡ b'.') ⊎ ((c ≡ b'-') ⊎ (c ≡ b'@'))))))

is_unit_byte_iff : (c : ℕ) → (is_unit_byte c ≡ true) ↔ IsUnitByte c
unfolding one_of
is_unit_byte_iff c = ground arith

All-unit : (s : Text) → All (λ byte. is_unit_byte byte ≡ true) s → All IsUnitByte s
All-unit [] h = tt
All-unit (x ∷ s) h = ((is_unit_byte_iff x).0 h.0, All-unit s h.1)

All-accepted : (s : Text) → All IsUnitByte s → All (λ byte. is_unit_byte byte ≡ true) s
All-accepted [] h = tt
All-accepted (x ∷ s) h = ((is_unit_byte_iff x).1 h.0, All-accepted s h.1)

-- `klipper`, then letters, digits and `_.-@`, at most 64 bytes
pub record IsUnitName (name : Text) : Type 0 where
  pub rest : Text
  pub starts : name ≡ codes "klipper" ++ rest
  pub allowed : All IsUnitByte rest
  pub short : length name ≤ 64

parse_inv :
    (name : Text) (unit : KlipperUnit)
    → parse_unit name ≡ ok unit
    → IsUnitName name × (unit.as_str ≡ name)
unfolding parse_unit
parse_inv name unit h = elim (Option-cases (strip_prefix (codes "klipper") name)) [
  | inl none' ↦ absurd (ground (arith, rw (none', parse_unit) at h))
  | inr (rest, e) ↦
      let h' = rw (e, parse_unit) at h in
      (
        record {
          rest = rest;
          starts = (strip_prefix-exact (codes "klipper") name rest).0 e;
          allowed = All-unit rest (all-All is_unit_byte rest (ground (arith, h')));
          short = ground (arith, h');
        },
        ground (arith, h'),
      )
]

parse_fwd : (name : Text) → IsUnitName name → parse_unit name ≡ ok (record { as_str = name })
unfolding parse_unit
parse_fwd name n =
    let e = (strip_prefix-exact (codes "klipper") name n.rest).1 n.starts in
    rw (e, parse_unit)
      (ground (arith, All-all is_unit_byte n.rest (All-accepted n.rest n.allowed), n.short))

-- A name is accepted exactly when it is `klipper` followed by letters, digits and `_`, `.`, `-`,
-- `@`, at most 64 bytes in all; the unit that results has that name.
pub parse_unit-exact :
    (name : Text) (unit : KlipperUnit)
    → (parse_unit name ≡ ok unit) ↔ (IsUnitName name × (unit.as_str ≡ name))
parse_unit-exact name unit = (
  parse_inv name unit,
  λ h. parse_fwd name h.0 ∙ ap (λ t. ok (record { as_str = t })) (sym (h.1)),
)
