-- ===== src/Eligibility/Compare.antt =====
-- The comparison of revisions has no direction where it should have none.
use Prim.Native.Nat.{Ordering}
use aldis.Prelude.{
  Bool, true, false, Bool-cases, [], ◌∷◌, ◌≡◌, ◌⊎◌, refl, sym, ◌∙◌, arith, length, Option, none,
  some, inl, inr,
}
use aldis.Prelude.Text.{Text, starts_with}
use aldis.Eligibility.{
  update_required, newer, bases_match, split_dirty_suffix, revisions_match, Semver, klipper_version,
  compare_versions, compare_positions, compare_revisions,
}

starts_with_self : (s : Text) → starts_with s s ≡ true
unfolding starts_with
starts_with_self [] = refl
starts_with_self (x ∷ s) = ground (arith, starts_with_self s)

-- Prefixes of one length are the same text, whichever way they are compared.
starts_with-swap : (a b : Text) → length a ≡ length b → starts_with a b ≡ starts_with b a
unfolding starts_with
starts_with-swap [] [] h = refl
starts_with-swap [] (y ∷ b) h = absurd (omega arith)
starts_with-swap (x ∷ a) [] h = absurd (omega arith)
starts_with-swap (x ∷ a) (y ∷ b) h = ground (arith, starts_with-swap a b (omega arith))

bases_match-swap : (p q : Text × Bool) → bases_match p q ≡ bases_match q p
unfolding bases_match
bases_match-swap (a, true) (b, true) = ground (arith, starts_with-swap a b)
bases_match-swap (a, false) (b, false) = ground (arith, starts_with-swap a b)
bases_match-swap (a, true) (b, false) = refl
bases_match-swap (a, false) (b, true) = refl

bases_match_self : (p : Text × Bool) → bases_match p p ≡ true
unfolding bases_match
bases_match_self (a, true) = ground (arith, starts_with_self a)
bases_match_self (a, false) = ground (arith, starts_with_self a)

-- A revision matches itself, and whether two match does not depend on which of them runs.
pub revisions_match_comm :
    (a b : Text) → (revisions_match a a ≡ true) × (revisions_match a b ≡ revisions_match b a)
unfolding revisions_match
revisions_match_comm a b = (
  bases_match_self (split_dirty_suffix a),
  bases_match-swap (split_dirty_suffix a) (split_dirty_suffix b),
)

Ordering-cases : (o : Ordering) → (o ≡ Ordering.lt) ⊎ ((o ≡ Ordering.eq) ⊎ (o ≡ Ordering.gt))
Ordering-cases Ordering.lt = inl refl
Ordering-cases Ordering.eq = inr (inl refl)
Ordering-cases Ordering.gt = inr (inr refl)

module _ {V : Type 0} (semver : Semver V) where
  positions-newer :
      (p q : Option V)
      → ((v w : V) → semver.cmp v w ≡ Ordering.gt → semver.cmp w v ≡ Ordering.lt)
      → compare_positions semver p q ≡ newer
      → compare_positions semver q p ≡ update_required
  unfolding compare_versions
  positions-newer none q turn h = cc
  positions-newer (some v) none turn h = cc
  positions-newer (some v) (some w) turn h = elim (Ordering-cases (semver.cmp v w)) [
    | inl lt ↦ let h' = rw (lt, compare_versions) at h in cc (h')
    | inr (inl eq) ↦ let h' = rw (eq, compare_versions) at h in cc (h')
    | inr (inr gt) ↦ rw (turn v w gt, compare_versions) refl
  ]

  -- Where versions compare one way round as the other: if firmware is newer than what it would be
  -- updated to, then the revisions do not match, and taking it from the other side an update is
  -- due.
  pub compare_revisions-newer :
      (running selected : Text)
      → ((v w : V) → semver.cmp v w ≡ Ordering.gt → semver.cmp w v ≡ Ordering.lt)
      → compare_revisions semver running selected ≡ newer
      → (revisions_match running selected ≡ false)
        × (compare_revisions semver selected running ≡ update_required)
  unfolding compare_revisions
  compare_revisions-newer running selected turn h =
      elim (Bool-cases (revisions_match running selected)) [
        | inl same ↦ let h' = rw (same, compare_revisions) at h in cc (h')
        | inr other ↦
            let back = sym ((revisions_match_comm running selected).1) ∙ other in
            (
              other,
              rw back (
                  positions-newer (klipper_version semver running) (klipper_version semver selected)
                    turn (rw (other, compare_revisions) at h)),
            )
      ]
