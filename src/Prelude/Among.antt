-- ===== src/Prelude/Among.antt =====
-- What stands in a list, and what holds of all that does.
use mathlib.Core.Path.{◌≡◌, refl, sym, ap, ◌∙◌, subst}
use mathlib.Core.Logic.{inl, inr}
use mathlib.Core.Bool.{Bool, true}
use mathlib.Core.Option.{Option, some}
use mathlib.Core.List.{List, [], ◌∷◌, ◌++◌, map}
use aldis.Prelude.Tests.{Bool-cases, Option-cases}
use aldis.Prelude.Lists.{All}
use aldis.Prelude.Iter.{find, filter_map}

-- A value stands in a list.
abbrev pub IsAmong {ℓ} : {A : Type ℓ} → A → List A → Type ℓ
IsAmong {A} x xs = (before : List A) × (after : List A) × (xs ≡ before ++ (x ∷ after))

pub find-among {ℓ} :
    {A : Type ℓ} (test : A → Bool) (xs : List A) (x : A)
    → find test xs ≡ some x
    → IsAmong x xs × (test x ≡ true)
unfolding find
find-among test [] x e = absurd (cc e)
find-among test (y ∷ ys) x e = elim (Bool-cases (test y)) [
  | inl yes' ↦
      let same : some y ≡ some x = rw (find, yes') at e in
      let y≡x : y ≡ x = cc same in (([], ys, ap (λ z. z ∷ ys) y≡x), sym (ap test y≡x) ∙ yes')
  | inr no' ↦
      let (listed, passes) = find-among test ys x (rw (find, no') at e) in
      let (before, after, split') = listed in
      ((y ∷ before, after, ap (λ zs. y ∷ zs) split'), passes)
]

module _ {ℓ κ} {A : Type ℓ} (P : A → Type κ) where
  pub All-find : (test : A → Bool) (xs : List A) (x : A) → All P xs → find test xs ≡ some x → P x
  unfolding find
  All-find test [] x h e = absurd (cc e)
  All-find test (y ∷ ys) x h e = elim (Bool-cases (test y)) [
    | inl yes' ↦ let same : some y ≡ some x = rw (find, yes') at e in subst P (cc same) h.0
    | inr no' ↦ All-find test ys x h.1 (rw (find, no') at e)
  ]

  -- What holds of each element, by where it stands.
  pub All-among : (xs : List A) → ((x : A) → IsAmong x xs → P x) → All P xs
  All-among [] f = tt
  All-among (x ∷ xs) f = (
    f x ([], xs, refl),
    All-among xs (λ y (before, after, e). f y (x ∷ before, after, ap (λ zs. x ∷ zs) e)),
  )

  module _ {B : Type ℓ} (Q : B → Type κ) where
    pub All-map :
        (f : B → A) (xs : List B) → ((x : B) → Q x → P (f x)) → All Q xs → All P (map f xs)
    All-map f [] k h = tt
    All-map f (x ∷ xs) k h = (k x h.0, All-map f xs k h.1)

    pub All-filter_map :
        (f : B → Option A) (xs : List B)
        → ((x : B) (y : A) → Q x → f x ≡ some y → P y)
        → All Q xs
        → All P (filter_map f xs)
    unfolding filter_map
    All-filter_map f [] k h = tt
    All-filter_map f (x ∷ xs) k h = elim (Option-cases (f x)) [
      | inl none' ↦ rw (none', filter_map) (All-filter_map f xs k h.1)
      | inr (y, some') ↦ rw (some', filter_map) (k x y h.0 some', All-filter_map f xs k h.1)
    ]
