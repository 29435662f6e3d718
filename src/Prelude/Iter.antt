-- ===== src/Prelude/Iter.antt =====
-- The adaptors of Rust's iterators that the program uses.
use mathlib.Core.Path.{◌≡◌}
use mathlib.Core.Bool.{Bool, true, ◌&&◌}
use mathlib.Core.Option.{Option, none, some}
use mathlib.Core.List.{List, [], ◌∷◌}
use aldis.Prelude.Tests.{if◌then◌else◌, Bool-cases, Option-cases}
use aldis.Prelude.Lists.{All}
use mathlib.Core.Logic.{inl, inr}

module _ {ℓ} {A : Type ℓ} where
  -- `filter`
  unfoldable pub keep : (A → Bool) → List A → List A
  keep test [] = []
  keep test (x ∷ xs) = let rest = keep test xs in if test x then x ∷ rest else rest

  -- `find`
  unfoldable pub find : (A → Bool) → List A → Option A
  find test [] = none
  find test (x ∷ xs) = let rest = find test xs in if test x then some x else rest

  -- `all`
  unfoldable pub every : (A → Bool) → List A → Bool
  every test [] = true
  every test (x ∷ xs) = test x && every test xs

  -- `first`
  abbrev pub first : List A → Option A
  first [] = none
  first (x ∷ xs) = some x

  -- what a test keeps passes it
  pub keep-All : (test : A → Bool) (xs : List A) → All (λ x. test x ≡ true) (keep test xs)
  unfolding keep
  keep-All test [] = tt
  keep-All test (x ∷ xs) = elim (Bool-cases (test x)) [
    | inl passes ↦ rw (passes, keep) (passes, keep-All test xs)
    | inr fails ↦ rw (fails, keep) (keep-All test xs)
  ]

  -- and what holds of every element holds of those that are kept
  pub All-keep {κ} :
      (P : A → Type κ) (test : A → Bool) (xs : List A) → All P xs → All P (keep test xs)
  unfolding keep
  All-keep P test [] h = tt
  All-keep P test (x ∷ xs) h = elim (Bool-cases (test x)) [
    | inl passes ↦ rw (passes, keep) (h.0, All-keep P test xs h.1)
    | inr fails ↦ rw (fails, keep) (All-keep P test xs h.1)
  ]

module _ {κ} {B : Type κ} where
  abbrev pub or_later : Option B → Option B → Option B
  or_later (some b) later = some b
  or_later none later = later

  abbrev push_some : Option B → List B → List B
  push_some (some b) bs = b ∷ bs
  push_some none bs = bs

module _ {ℓ κ} {A : Type ℓ} {B : Type κ} where
  -- `find_map`
  unfoldable pub find_map : (A → Option B) → List A → Option B
  find_map f [] = none
  find_map f (x ∷ xs) = or_later (f x) (find_map f xs)

  -- `filter_map`
  unfoldable pub filter_map : (A → Option B) → List A → List B
  filter_map f [] = []
  filter_map f (x ∷ xs) = push_some (f x) (filter_map f xs)

  -- What holds of every element that is produced, holds of the whole.
  pub filter_map-All {λ'} :
      (P : B → Type λ') (f : A → Option B) (xs : List A)
      → ((x : A) (b : B) → f x ≡ some b → P b)
      → All P (filter_map f xs)
  unfolding filter_map
  filter_map-All P f [] h = tt
  filter_map-All P f (x ∷ xs) h = elim (Option-cases (f x)) [
    | inl none' ↦ rw (none', filter_map) (filter_map-All P f xs h)
    | inr (b, some') ↦ rw (some', filter_map) (h x b some', filter_map-All P f xs h)
  ]
