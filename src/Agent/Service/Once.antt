-- ===== src/Agent/Service/Once.antt =====
-- Targets are named once each, whatever their case, also in the order of flashing
-- (src/agent/service.rs, src/flash_order.rs).
use aldis.Prelude.{
  Bool, false, Bool-cases, List, [], ◌∷◌, ◌++◌, bytes_eq_iff, All, All-append, ◌≡◌, ◌≢◌, sym, inl,
  inr, arith,
}
use aldis.Prelude.Strings.{to_ascii_lowercase}
use aldis.Prelude.Text.{Text, any}
use aldis.Fleet.{Mcu, partition, is_bridge, flash_order}
use aldis.Fleet.Peers.{among}
use aldis.Agent.Service.{once}

-- Names that differ, whatever their case.
abbrev pub DifferFrom : Text → List Text → Type 0
DifferFrom name names = All (λ other. to_ascii_lowercase other ≢ to_ascii_lowercase name) names

abbrev pub IsOnce : List Text → Type 0
IsOnce [] = Unit {0}
IsOnce (name ∷ names) = DifferFrom name names × IsOnce names

pub All-once {κ} :
    (P : Text → Type κ) (seen names : List Text) → All P names → All P (once seen names)
unfolding once
All-once P seen [] h = tt
All-once P seen (name ∷ names) h = elim (Bool-cases (among seen (to_ascii_lowercase name))) [
  | inl known ↦ rw (known, once) (All-once P seen names h.1)
  | inr new ↦ rw (new, once) (h.0, All-once P (to_ascii_lowercase name ∷ seen) names h.1)
]

unseen-weaken :
    (first : Text) (seen names : List Text)
    → All (λ other. among (first ∷ seen) (to_ascii_lowercase other) ≡ false) names
    → All (λ other. among seen (to_ascii_lowercase other) ≡ false) names
unfolding any
unseen-weaken first seen [] h = tt
unseen-weaken first seen (x ∷ xs) h = (ground arith, unseen-weaken first seen xs h.1)

unseen-differ :
    (name : Text) (seen names : List Text)
    → All (λ other. among (to_ascii_lowercase name ∷ seen) (to_ascii_lowercase other) ≡ false) names
    → DifferFrom name names
unfolding any
unseen-differ name seen [] h = tt
unseen-differ name seen (x ∷ xs) h = (
  λ e.
      let same = (bytes_eq_iff (to_ascii_lowercase name) (to_ascii_lowercase x)).1 (sym e) in
      ground arith,
  unseen-differ name seen xs h.1,
)

once-unseen :
    (seen names : List Text)
    → All (λ other. among seen (to_ascii_lowercase other) ≡ false) (once seen names)
unfolding once
once-unseen seen [] = tt
once-unseen seen (name ∷ names) = elim (Bool-cases (among seen (to_ascii_lowercase name))) [
  | inl known ↦ rw (known, once) (once-unseen seen names)
  | inr new ↦
      rw (new, once)
        (
          new,
          unseen-weaken (to_ascii_lowercase name) seen (once (to_ascii_lowercase name ∷ seen) names)
              (once-unseen (to_ascii_lowercase name ∷ seen) names),
        )
]

pub once-IsOnce : (seen names : List Text) → IsOnce (once seen names)
unfolding once
once-IsOnce seen [] = tt
once-IsOnce seen (name ∷ names) = elim (Bool-cases (among seen (to_ascii_lowercase name))) [
  | inl known ↦ rw (known, once) (once-IsOnce seen names)
  | inr new ↦
      let rest = once (to_ascii_lowercase name ∷ seen) names in
      rw (new, once)
        (
          unseen-differ name seen rest (once-unseen (to_ascii_lowercase name ∷ seen) names),
          once-IsOnce (to_ascii_lowercase name ∷ seen) names,
        )
]

All-partition {κ} :
    (P : Text → Type κ) (test : Text → Bool) (names : List Text)
    → All P names
    → All P (partition test names).0 × All P (partition test names).1
unfolding partition
All-partition P test [] h = (tt, tt)
All-partition P test (name ∷ names) h =
    let (passed, failed) = All-partition P test names h.1 in
    elim (Bool-cases (test name)) [
      | inl yes' ↦ rw (yes', partition) ((h.0, passed), failed)
      | inr no' ↦ rw (no', partition) (passed, (h.0, failed))
    ]

-- The order of flashing has no other targets.
pub All-flash_order {κ} :
    (P : Text → Type κ) (mcus : List Mcu) (names : List Text)
    → All P names
    → All P (flash_order mcus names)
unfolding flash_order
All-flash_order P mcus names h =
    let (bridges, others) = All-partition P (is_bridge mcus) names h in
    All-append P (partition (is_bridge mcus) names).1 (partition (is_bridge mcus) names).0 others
      bridges

-- Every name of the one list differs from every name of the other.
abbrev AreApart : List Text → List Text → Type 0
AreApart names others = All (λ name. DifferFrom name others) names

apart-add :
    (name : Text) (names others : List Text)
    → AreApart names others
    → DifferFrom name names
    → AreApart names (name ∷ others)
apart-add name [] others h k = tt
apart-add name (x ∷ xs) others h k = (((λ e. k.0 (sym e)), h.0), apart-add name xs others h.1 k.1)

partition-IsOnce :
    (test : Text → Bool) (names : List Text)
    → IsOnce names
    → IsOnce (partition test names).0
      × IsOnce (partition test names).1
      × AreApart (partition test names).1 (partition test names).0
unfolding partition
partition-IsOnce test [] h = (tt, tt, tt)
partition-IsOnce test (name ∷ names) h =
    let (passed, failed, apart) = partition-IsOnce test names h.1 in
    let (from_passed, from_failed) =
      All-partition (λ other. to_ascii_lowercase other ≢ to_ascii_lowercase name) test names h.0 in
    elim (Bool-cases (test name)) [
      | inl yes' ↦
          rw (yes', partition)
            (
              (from_passed, passed),
              failed,
              apart-add name (partition test names).1 (partition test names).0 apart from_failed,
            )
      | inr no' ↦ rw (no', partition) (passed, (from_failed, failed), (from_passed, apart))
    ]

append-IsOnce : (xs ys : List Text) → IsOnce xs → IsOnce ys → AreApart xs ys → IsOnce (xs ++ ys)
append-IsOnce [] ys h k apart = k
append-IsOnce (x ∷ xs) ys h k apart = (
  All-append (λ other. to_ascii_lowercase other ≢ to_ascii_lowercase x) xs ys h.0 apart.0,
  append-IsOnce xs ys h.1 k apart.1,
)

pub flash_order-IsOnce :
    (mcus : List Mcu) (names : List Text) → IsOnce names → IsOnce (flash_order mcus names)
unfolding flash_order
flash_order-IsOnce mcus names h =
    let (bridges, others, apart) = partition-IsOnce (is_bridge mcus) names h in
    append-IsOnce (partition (is_bridge mcus) names).1 (partition (is_bridge mcus) names).0 others
      bridges apart
