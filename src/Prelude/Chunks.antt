-- ===== src/Prelude/Chunks.antt =====
-- `slice::chunks`: pieces of `n` elements, the last one possibly shorter. The fuel is the length
-- of the slice, which is enough where `n` is positive (Rust panics on 0).
use Prim.Native.Nat.{ℕ, zero, suc, ◌≤◌, ◌<◌}
use mathlib.Core.Path.{◌≡◌, refl, ap, ◌∙◌}
use mathlib.Core.List.{List, [], ◌∷◌, ◌++◌}
use native.Mathlib.Omega.{arith}
use aldis.Prelude.Lists.{
  length, take, drop, flatten, All, take-append-drop, length-take, length-drop,
}

module _ {ℓ} {A : Type ℓ} where
  unfoldable pub chunks_from : ℕ → ℕ → List A → List (List A)
  chunks_from zero n xs = []
  chunks_from (suc f) n [] = []
  chunks_from (suc f) n (x ∷ xs) = take n (x ∷ xs) ∷ chunks_from f n (drop n (x ∷ xs))

  unfoldable pub chunks : ℕ → List A → List (List A)
  unfolding chunks_from
  chunks n xs = chunks_from (length xs) n xs

  flatten-chunks_from :
      (f n : ℕ) (xs : List A) → 0 < n → length xs ≤ f → flatten (chunks_from f n xs) ≡ xs
  unfolding chunks_from
  flatten-chunks_from zero n [] p h = refl
  flatten-chunks_from zero n (x ∷ xs) p h = absurd (omega arith)
  flatten-chunks_from (suc f) n [] p h = refl
  flatten-chunks_from (suc f) n (x ∷ xs) p h =
      ap (λ t. take n (x ∷ xs) ++ t)
        (flatten-chunks_from f n (drop n (x ∷ xs)) p (omega (arith, length-drop n (x ∷ xs))))
      ∙ take-append-drop n (x ∷ xs)

  -- The pieces are the slice again.
  pub flatten-chunks : (n : ℕ) (xs : List A) → 0 < n → flatten (chunks n xs) ≡ xs
  unfolding chunks
  flatten-chunks n xs p = flatten-chunks_from (length xs) n xs p (omega arith)

  chunks_from-length : (f n : ℕ) (xs : List A) → All (λ c. length c ≤ n) (chunks_from f n xs)
  unfolding chunks_from
  chunks_from-length zero n xs = tt
  chunks_from-length (suc f) n [] = tt
  chunks_from-length (suc f) n (x ∷ xs) =
      (omega (arith, length-take n (x ∷ xs)), chunks_from-length f n (drop n (x ∷ xs)))

  -- No piece is longer than `n`.
  pub chunks-length : (n : ℕ) (xs : List A) → All (λ c. length c ≤ n) (chunks n xs)
  unfolding chunks
  chunks-length n xs = chunks_from-length (length xs) n xs
