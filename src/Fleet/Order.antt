-- ===== src/Fleet/Order.antt =====
-- Bridges are flashed last, and nothing else changes places.
use aldis.Prelude.{
  append-nil, Bool, true, false, not, Bool-cases, if◌then◌else◌, List, [], ◌∷◌, ◌++◌, ◌≡◌, refl, ap,
  ◌∙◌, ap₂, arith, All, inl, inr,
}
use aldis.Prelude.Text.{Text}
use aldis.Fleet.{Mcu, is_bridge, partition, flash_order}

-- The targets of one kind, in their order.
unfoldable pub of_kind : (Text → Bool) → Bool → List Text → List Text
of_kind test kind [] = []
of_kind test true (x ∷ xs) = let rest = of_kind test true xs in if test x then x ∷ rest else rest
of_kind test false (x ∷ xs) = let rest = of_kind test false xs in if test x then rest else x ∷ rest

-- After a target that passes the test come only such targets.
abbrev pub PassLast : (Text → Bool) → List Text → Type 0
PassLast test [] = Unit
PassLast test (x ∷ xs) = (test x ≡ true → All (λ y. test y ≡ true) xs) × PassLast test xs

module _ (test : Text → Bool) where
  passing : (xs : List Text) → All (λ y. test y ≡ true) (partition test xs).0
  unfolding partition
  passing [] = tt
  passing (x ∷ xs) = elim (Bool-cases (test x)) [
    | inl yes' ↦ rw yes' (yes', passing xs)
    | inr no' ↦ rw no' (passing xs)
  ]

  failing : (xs : List Text) → All (λ y. test y ≡ false) (partition test xs).1
  unfolding partition
  failing [] = tt
  failing (x ∷ xs) = elim (Bool-cases (test x)) [
    | inl yes' ↦ rw yes' (failing xs)
    | inr no' ↦ rw no' (no', failing xs)
  ]

  All-PassLast : (xs : List Text) → All (λ y. test y ≡ true) xs → PassLast test xs
  All-PassLast [] h = tt
  All-PassLast (x ∷ xs) h = (λ e. h.1, All-PassLast xs h.1)

  append-PassLast :
      (xs ys : List Text)
      → All (λ y. test y ≡ false) xs
      → All (λ y. test y ≡ true) ys
      → PassLast test (xs ++ ys)
  append-PassLast [] ys h k = All-PassLast ys k
  append-PassLast (x ∷ xs) ys h k = (λ e. cc (e, h.0), append-PassLast xs ys h.1 k)

  of_kind-append :
      (kind : Bool) (xs ys : List Text)
      → of_kind test kind (xs ++ ys) ≡ of_kind test kind xs ++ of_kind test kind ys
  unfolding of_kind
  of_kind-append kind [] ys = refl
  of_kind-append true (x ∷ xs) ys = ground (arith, of_kind-append true xs ys)
  of_kind-append false (x ∷ xs) ys = ground (arith, of_kind-append false xs ys)

  of_kind-whole :
      (kind : Bool) (xs : List Text) → All (λ y. test y ≡ kind) xs → of_kind test kind xs ≡ xs
  unfolding of_kind
  of_kind-whole kind [] h = refl
  of_kind-whole true (x ∷ xs) h = rw h.0 (ap (λ t. x ∷ t) (of_kind-whole true xs h.1))
  of_kind-whole false (x ∷ xs) h = rw h.0 (ap (λ t. x ∷ t) (of_kind-whole false xs h.1))

  of_kind-nothing :
      (kind : Bool) (xs : List Text) → All (λ y. test y ≡ not kind) xs → of_kind test kind xs ≡ []
  unfolding of_kind
  of_kind-nothing kind [] h = refl
  of_kind-nothing true (x ∷ xs) h = rw h.0 (of_kind-nothing true xs h.1)
  of_kind-nothing false (x ∷ xs) h = rw h.0 (of_kind-nothing false xs h.1)

  partition-of_kind :
      (xs : List Text)
      → ((partition test xs).0 ≡ of_kind test true xs)
        × ((partition test xs).1 ≡ of_kind test false xs)
  unfolding partition of_kind
  partition-of_kind [] = (refl, refl)
  partition-of_kind (x ∷ xs) =
      let ih = partition-of_kind xs in
      elim (Bool-cases (test x)) [
        | inl yes' ↦ rw (yes', of_kind) (ap (λ t. x ∷ t) ih.0, ih.1)
        | inr no' ↦ rw (no', of_kind) (ih.0, ap (λ t. x ∷ t) ih.1)
      ]

  kept :
      (kind : Bool) (xs : List Text)
      → of_kind test kind ((partition test xs).1 ++ (partition test xs).0) ≡ of_kind test kind xs
  kept true xs =
      of_kind-append true _ _
      ∙ ap₂ (◌++◌) (of_kind-nothing true _ (failing xs)) (of_kind-whole true _ (passing xs))
      ∙ (partition-of_kind xs).0
  kept false xs =
      of_kind-append false _ _
      ∙ ap₂ (◌++◌) (of_kind-whole false _ (failing xs)) (of_kind-nothing false _ (passing xs))
      ∙ append-nil _
      ∙ (partition-of_kind xs).1

-- Once a bridge is flashed only bridges follow; and the bridges, and the other targets, are each
-- flashed all and in their given order.
pub flash_order-bridges_last :
    (mcus : List Mcu) (targets : List Text)
    → PassLast (is_bridge mcus) (flash_order mcus targets)
      × ((kind : Bool)
          → of_kind (is_bridge mcus) kind (flash_order mcus targets)
            ≡ of_kind (is_bridge mcus) kind targets)
unfolding flash_order
flash_order-bridges_last mcus targets = (
  append-PassLast (is_bridge mcus) _ _ (failing (is_bridge mcus) targets)
      (passing (is_bridge mcus) targets),
  λ kind. kept (is_bridge mcus) kind targets,
)
