-- ===== src/Katapult/Session/Padding.antt =====
-- The blocks of an upload are the firmware, filled up with 0xff to whole blocks.
use native.Mathlib.Nat.{div-eq-sub-div, div-eq_of_lt-le, div-eq_of_lt, lt-div-mul-add}
use aldis.Prelude.{
  ℕ, zero, suc, ◌+◌, ◌-◌, ◌*◌, ◌/◌, ◌≤◌, ◌<◌, List, [], ◌∷◌, ◌++◌, ◌≡◌, inl, inr, refl, ap, ap₂,
  sym, ◌∙◌, arith, Bytes, length, take, drop, replicate, length-append, length-take, length-drop,
  length-replicate, take-append-drop, Bool-cases, append-nil, append_assoc, ltb,
}
use aldis.Prelude.Chunks.{chunks, chunks_from}
use aldis.Katapult.Session.Blocks.{padded_block, div_ceil}

abbrev pub padded_image : ℕ → List Bytes → Bytes
padded_image block_size [] = []
padded_image block_size (c ∷ cs) = padded_block c block_size ++ padded_image block_size cs

take_all : (n : ℕ) (xs : Bytes) → length xs ≤ n → take n xs ≡ xs
take_all zero [] h = refl
take_all zero (x ∷ xs) h = absurd (omega arith)
take_all (suc n) [] h = refl
take_all (suc n) (x ∷ xs) h = ap (◌∷◌ x) (take_all n xs (omega arith))

drop_all : (n : ℕ) (xs : Bytes) → length xs ≤ n → drop n xs ≡ []
drop_all zero [] h = refl
drop_all zero (x ∷ xs) h = absurd (omega arith)
drop_all (suc n) [] h = refl
drop_all (suc n) (x ∷ xs) h = drop_all n xs (omega arith)

drop-replicate : (k n b : ℕ) → drop k (replicate n b) ≡ replicate (n - k) b
drop-replicate zero n b = let e : n ≡ n - 0 = omega arith in ap (λ m. replicate m b) e
drop-replicate (suc k) zero b = let e : 0 ≡ 0 - suc k = omega arith in ap (λ m. replicate m b) e
drop-replicate (suc k) (suc n) b =
    let e : n - k ≡ suc n - suc k = omega arith in drop-replicate k n b ∙ ap (λ m. replicate m b) e

padded_block_lem : (c : Bytes) (n : ℕ) → padded_block c n ≡ c ++ replicate (n - length c) 0xff
unfolding padded_block
padded_block_lem c n = ap (λ t. c ++ t) (drop-replicate (length c) n 0xff)

-- A block has the size that it is padded to.
pub length-padded_block : (c : Bytes) (n : ℕ) → length c ≤ n → length (padded_block c n) ≡ n
length-padded_block c n h =
    ap length (padded_block_lem c n)
    ∙ omega (
      arith,
      length-append c (replicate (n - length c) 0xff),
      length-replicate {A = ℕ} (n - length c) 0xff,
    )

-- The bytes missing to whole blocks of `n` bytes.
abbrev pub missing : ℕ → ℕ → ℕ
missing n l = div_ceil l n * n - l

div_ceil-step : (n l : ℕ) → 0 < n → n ≤ l → div_ceil l n ≡ div_ceil (l - n) n + 1
div_ceil-step n l p h =
    let e : l + (n - 1) - n ≡ l - n + (n - 1) = omega arith in
    div-eq-sub-div p (omega arith) ∙ ap (λ m. m / n + 1) e

div_ceil-last : (n l : ℕ) → 0 < l → l ≤ n → div_ceil l n ≡ 1
div_ceil-last n l p h = div-eq_of_lt-le {k = 1} n {m = l + (n - 1)} (omega arith) (omega arith)

missing-step : (n l : ℕ) → 0 < n → n ≤ l → missing n (l - n) ≡ missing n l
missing-step n l p h = omega (arith, ap (λ (q : ℕ). q * n) (div_ceil-step n l p h))

missing-last : (n l : ℕ) → 0 < l → l ≤ n → missing n l ≡ n - l
missing-last n l p h = omega (arith, ap (λ (q : ℕ). q * n) (div_ceil-last n l p h))

abbrev fill : ℕ → Bytes
fill k = replicate k 0xff

missing-zero : (n : ℕ) → 0 < n → 0 ≡ missing n 0
missing-zero n p =
    omega (arith, ap (λ (q : ℕ). q * n) (div-eq_of_lt {n = 0 + (n - 1)} {m = n} (omega arith)))

full : (n : ℕ) (xs : Bytes) → n < length xs → n - length (take n xs) ≡ 0
full n xs h = omega (arith, length-take n xs)

no_chunks : (f n : ℕ) → chunks_from {A = ℕ} f n [] ≡ []
unfolding chunks_from
no_chunks zero n = refl
no_chunks (suc f) n = refl

padded_image-chunks_from :
    (f n : ℕ) (xs : Bytes)
    → 0 < n
    → length xs ≤ f
    → padded_image n (chunks_from f n xs) ≡ xs ++ fill (missing n (length xs))
unfolding chunks_from
padded_image-chunks_from zero n [] p h = ap fill (missing-zero n p)
padded_image-chunks_from zero n (x ∷ xs) p h = absurd (omega arith)
padded_image-chunks_from (suc f) n [] p h = ap fill (missing-zero n p)
padded_image-chunks_from (suc f) n (x ∷ xs) p h = elim (Bool-cases (ltb n (length (x ∷ xs)))) [
  | inl more ↦
      let all = x ∷ xs in
      let first : padded_block (take n all) n ≡ take n all =
        padded_block_lem (take n all) n
        ∙ ap (λ k. take n all ++ fill k) (full n all (ground arith))
        ∙ append-nil (take n all) in
      let rest = padded_image-chunks_from f n (drop n all) p (omega (arith, length-drop n all)) in
      let same : missing n (length (drop n all)) ≡ missing n (length all) =
        ap (missing n) (length-drop n all) ∙ missing-step n (length all) p (ground arith) in
      ap₂ (◌++◌) first (rest ∙ ap (λ k. drop n all ++ fill k) same)
      ∙ sym (append_assoc (take n all) (drop n all) (fill (missing n (length all))))
      ∙ ap (λ t. t ++ fill (missing n (length all))) (take-append-drop n all)
  | inr last ↦
      let all = x ∷ xs in
      let whole : take n all ≡ all = take_all n all (ground arith) in
      let none' : drop n all ≡ [] = drop_all n all (ground arith) in
      ap₂ (◌++◌) (ap (λ c. padded_block c n) whole ∙ padded_block_lem all n)
        (ap (λ t. padded_image n (chunks_from f n t)) none' ∙ ap (padded_image n) (no_chunks f n))
      ∙ append-nil (all ++ fill (n - length all))
      ∙ ap (λ k. all ++ fill k) (sym (missing-last n (length all) (omega arith) (ground arith)))
]

-- The blocks written for `firmware` are its bytes, then 0xff up to a whole number of blocks.
pub padded_image-chunks :
    (n : ℕ) (firmware : Bytes)
    → 0 < n
    → padded_image n (chunks n firmware) ≡ firmware ++ replicate (missing n (length firmware)) 0xff
unfolding chunks
padded_image-chunks n firmware p =
    padded_image-chunks_from (length firmware) n firmware p (omega arith)

pub missing-exact : (n l : ℕ) → 0 < n → l + missing n l ≡ div_ceil l n * n
missing-exact n l p = omega (arith, lt-div-mul-add {a = l + (n - 1)} {b = n} p)

length-chunks_from :
    (f n : ℕ) (xs : Bytes)
    → 0 < n
    → length xs ≤ f
    → length (chunks_from f n xs) ≡ div_ceil (length xs) n
unfolding chunks_from
length-chunks_from zero n [] p h = sym (div-eq_of_lt {n = 0 + (n - 1)} {m = n} (omega arith))
length-chunks_from zero n (x ∷ xs) p h = absurd (omega arith)
length-chunks_from (suc f) n [] p h = sym (div-eq_of_lt {n = 0 + (n - 1)} {m = n} (omega arith))
length-chunks_from (suc f) n (x ∷ xs) p h = elim (Bool-cases (ltb n (length (x ∷ xs)))) [
  | inl more ↦
      let all = x ∷ xs in
      let rest = length-chunks_from f n (drop n all) p (omega (arith, length-drop n all)) in
      let same : div_ceil (length (drop n all)) n ≡ div_ceil (length all - n) n =
        ap (λ l. div_ceil l n) (length-drop n all) in
      omega (arith, rest, same, div_ceil-step n (length all) p (ground arith))
  | inr last ↦
      let all = x ∷ xs in
      let none' : chunks_from f n (drop n all) ≡ [] =
        ap (chunks_from f n) (drop_all n all (ground arith)) ∙ no_chunks f n in
      ap (λ t. suc (length t)) none'
      ∙ sym (div_ceil-last n (length all) (omega arith) (ground arith))
]

-- `div_ceil` counts the chunks.
pub length-chunks : (n : ℕ) (xs : Bytes) → 0 < n → length (chunks n xs) ≡ div_ceil (length xs) n
unfolding chunks
length-chunks n xs p = length-chunks_from (length xs) n xs p (omega arith)
