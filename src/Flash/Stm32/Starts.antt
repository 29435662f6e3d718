-- ===== src/Flash/Stm32/Starts.antt =====
-- What the chosen, the probed and the expected application starts are.
use aldis.Prelude.{
  ℕ, ◌≤◌, ◌==◌, ==_iff, ltb, leb, leb→le, ◌&&◌, Bool, true, false, Bool-cases, Option-cases, List,
  [], ◌∷◌, ◌≡◌, ◌⊎◌, ◌↔◌, inl, inr, refl, ap, sym, ◌∙◌, arith, Bytes, length, take, drop, Option,
  none, some,
}
use aldis.Prelude.Iter.{keep}
use aldis.Prelude.Text.{one_of}
use aldis.Prelude.Words.{u32_from_le}
use aldis.Flash.Stm32.{
  candidate_application_starts, table_of, found, not_found, holds_application, probed,
  probe_application_start, maximum, expected_application_start, if_plausible,
  select_application_start,
}

and-left : (a b : Bool) → (a && b) ≡ true → a ≡ true
and-left a b h = ground arith

and-right : (a b : Bool) → (a && b) ≡ true → b ≡ true
and-right a b h = ground arith

and-true : (a b : Bool) → a ≡ true → b ≡ true → (a && b) ≡ true
and-true a b h k = ground arith

le→leb : (a b : ℕ) → a ≤ b → leb a b ≡ true
le→leb a b h = ground arith

probed-found : (xs : List ℕ) (start : ℕ) → probed xs ≡ found start → xs ≡ start ∷ []
probed-found [] start h = cc
probed-found (x ∷ []) start h = ground arith
probed-found (x ∷ y ∷ xs) start h = cc

probed-none : (xs : List ℕ) → probed xs ≡ not_found → xs ≡ []
probed-none [] h = refl
probed-none (x ∷ []) h = cc
probed-none (x ∷ y ∷ xs) h = cc

single : (a b : ℕ) → one_of (a ∷ []) b ≡ true → b ≡ a
unfolding one_of
single a b h = ground arith

single_self : (a b : ℕ) → b ≡ a → one_of (a ∷ []) b ≡ true
unfolding one_of
single_self a b h = ground arith

nothing : (b : ℕ) → one_of [] b ≡ false
unfolding one_of
nothing b = refl

no_member : (xs : List ℕ) → ((b : ℕ) → one_of xs b ≡ false) → xs ≡ []
unfolding one_of
no_member [] h = refl
no_member (x ∷ xs) h = let here = h x in absurd (ground arith)

-- membership in a filtered list
one_of-keep :
    (test : ℕ → Bool) (xs : List ℕ) (a : ℕ) → one_of (keep test xs) a ≡ (one_of xs a && test a)
unfolding one_of keep
one_of-keep test [] a = refl
one_of-keep test (x ∷ xs) a = elim (Bool-cases (x == a)) [
  | inl same ↦ let e = (==_iff x a).0 same in rw e (ground (arith, one_of-keep test xs a))
  | inr other ↦ ground (arith, one_of-keep test xs a)
]

maximum-none : (xs : List ℕ) → maximum xs ≡ none → (b : ℕ) → one_of xs b ≡ false
unfolding maximum one_of
maximum-none [] h b = refl
maximum-none (x ∷ xs) h b = ground arith

maximum-greatest :
    (xs : List ℕ) (m : ℕ)
    → maximum xs ≡ some m
    → (one_of xs m ≡ true) × ((b : ℕ) → one_of xs b ≡ true → b ≤ m)
unfolding maximum one_of
maximum-greatest [] m h = cc
maximum-greatest (x ∷ xs) m h = elim (Option-cases (maximum xs)) [
  | inl none' ↦
      let h' = rw (none', maximum) at h in
      (ground (arith, h'), λ b k. ground (arith, h', maximum-none xs none' b))
  | inr (n, some') ↦
      let h' = rw (some', maximum) at h in
      let (member, greatest) = maximum-greatest xs n some' in
      (ground (arith, h', member), λ b k. ground (arith, h', greatest b))
]

-- A start that is expected of a firmware is the greatest candidate not above the reset vector, and
-- the firmware begins with a plausible vector table.
pub expected_application_start-greatest :
    (firmware : Bytes) (start : ℕ)
    → expected_application_start firmware ≡ some start
    → (table_of firmware ≡ true)
      × (one_of candidate_application_starts start ≡ true)
      × (start ≤ u32_from_le (take 4 (drop 4 firmware)))
      × ((other : ℕ)
          → one_of candidate_application_starts other ≡ true
          → other ≤ u32_from_le (take 4 (drop 4 firmware))
          → other ≤ start)
unfolding expected_application_start
expected_application_start-greatest firmware start h =
    let reset = u32_from_le (take 4 (drop 4 firmware)) in
    let below : ℕ → Bool = λ candidate. leb candidate reset in
    elim (Bool-cases (ltb (length firmware) 8)) [
      | inl short ↦ let h' = rw (short, expected_application_start) at h in cc (h')
      | inr long ↦ elim (Bool-cases (table_of firmware)) [
        | inr bad ↦ let h' = rw (long, bad, expected_application_start) at h in cc (h')
        | inl good ↦
            let h' : maximum (keep below candidate_application_starts) ≡ some start =
              rw (long, good, expected_application_start) at h in
            let (member, greatest) =
              maximum-greatest (keep below candidate_application_starts) start h' in
            let both = sym (one_of-keep below candidate_application_starts start) ∙ member in
            (
              good,
              and-left _ _ both,
              leb→le start reset (and-right _ _ both),
              λ other among le. greatest other (
                  one_of-keep below candidate_application_starts other
                  ∙ and-true _ _ among (le→leb other reset le)),
            )
      ]
    ]

-- An application that the probe finds is at the one candidate whose contents look like a vector
-- table, and the probe finds none exactly where no candidate's contents do.
pub probe_application_start_unique :
    (read : ℕ → Option Bytes)
    → ((start : ℕ)
        → probe_application_start read ≡ found start
        → (b : ℕ)
        → ((one_of candidate_application_starts b && holds_application read b) ≡ true)
          ↔ (b ≡ start))
      × ((probe_application_start read ≡ not_found)
          ↔ ((b : ℕ) → (one_of candidate_application_starts b && holds_application read b) ≡ false))
unfolding probe_application_start
probe_application_start_unique read = (
  λ start h b.
      let only =
        probed-found (keep (holds_application read) candidate_application_starts) start h in
      let mem =
        sym (one_of-keep (holds_application read) candidate_application_starts b)
        ∙ ap (λ xs. one_of xs b) only in
      (λ k. single start b (sym mem ∙ k), λ k. mem ∙ single_self start b k),
  (
    λ h b.
        sym (one_of-keep (holds_application read) candidate_application_starts b)
        ∙ ap (λ xs. one_of xs b)
            (probed-none (keep (holds_application read) candidate_application_starts) h)
        ∙ nothing b,
    λ h. ap probed (
        no_member (keep (holds_application read) candidate_application_starts)
          (λ b. one_of-keep (holds_application read) candidate_application_starts b ∙ h b)),
  ),
)

-- The start that is selected is plausible: the installed application's if that is plausible,
-- otherwise the configured one; and if neither is plausible none is selected.
pub select_application_start-exact :
    (plausible : List ℕ) (installed configured : Option ℕ) (start : ℕ)
    → (select_application_start plausible installed configured ≡ some start) ↔ (
        (one_of plausible start ≡ true)
        × ((installed ≡ some start)
            ⊎ ((configured ≡ some start) × (if_plausible plausible installed ≡ none))))
unfolding select_application_start
select_application_start-exact plausible none none start = ground arith
select_application_start-exact plausible none (some c) start = ground arith
select_application_start-exact plausible (some i) none start = ground arith
select_application_start-exact plausible (some i) (some c) start = ground arith
