-- ===== src/Update/Retry/Available.antt =====
-- Retrying ends: with success, or after its deadline with the last error.
use aldis.Prelude.{
  ℕ, zero, suc, ◌+◌, ◌*◌, ◌^◌, ◌≤◌, ◌<◌, leb, leb→le, Bool-cases, false, some, Result, ok, err,
  Result-cases, Exec, ◌≡◌, refl, inl, inr, arith,
}
use aldis.Update.Retry.{pause_of, retry_from, retry_until_available}

pause_of-long : (interval : ℕ) → 10 * 10 ^ 6 ≤ pause_of interval
pause_of-long interval = ground arith

module _ {S E A : Type 0} (now : S → ℕ) (sleep : ℕ → S → S) (operation : Exec S E A) where
  -- The retries come to a result of which `Q` holds.
  abbrev Comes : (Result E A × S → Type 0) → ℕ → ℕ → ℕ → S → Type 0
  Comes Q fuel deadline interval s =
      (r : Result E A × S) × ((retry_from now sleep operation fuel deadline interval s ≡ some r)
        × Q r)

  module _ (Q : Result E A × S → Type 0) (deadline interval : ℕ)
      (succeeds : (s : S) (a : A) → (operation s).0 ≡ ok a → Q (ok a, (operation s).1))
      (gives_up : (s : S) (e : E)
        → (operation s).0 ≡ err e
        → deadline ≤ now (operation s).1
        → Q (err e, (operation s).1)) where
    -- one attempt, and what comes of the others where it fails in time
    attempt-Comes :
        (fuel : ℕ) (s : S)
        → (leb deadline (now (operation s).1) ≡ false
            → Comes Q fuel deadline interval (sleep (pause_of interval) (operation s).1))
        → Comes Q (suc fuel) deadline interval s
    unfolding retry_from
    attempt-Comes fuel s later = elim (Result-cases (operation s).0) [
      | inl (a, good) ↦ rw (good, retry_from) ((ok a, (operation s).1), (refl, succeeds s a good))
      | inr (e, bad) ↦ elim (Bool-cases (leb deadline (now (operation s).1))) [
        | inl late ↦
            rw (bad, retry_from, late)
              (
                (err e, (operation s).1),
                (refl, gives_up s e bad (leb→le deadline (now (operation s).1) late)),
              )
        | inr early ↦ rw (bad, retry_from, early) (later early)
      ]
    ]

    module _ (sleeps : (d : ℕ) (s : S) → now s + d ≤ now (sleep d s))
        (goes_on : (s : S) → now s ≤ now (operation s).1) where
      -- with `n` attempts after the first
      retry_from-Comes :
          (n : ℕ) (s : S)
          → deadline ≤ now s + n * (10 * 10 ^ 6)
          → Comes Q (suc n) deadline interval s
      retry_from-Comes zero s h = attempt-Comes zero s λ early. ground (arith, goes_on s)
      retry_from-Comes (suc n) s h = attempt-Comes (suc n) s λ early.
          retry_from-Comes n (sleep (pause_of interval) (operation s).1) (
            omega (
              arith,
              sleeps (pause_of interval) (operation s).1,
              goes_on s,
              pause_of-long interval,
            ))

  -- a success, or an error after the deadline
  abbrev pub IsFinal : ℕ → Result E A × S → Type 0
  IsFinal deadline (ok a, t) = Unit
  IsFinal deadline (err e, t) = deadline ≤ now t

  -- Where sleeping and the operation take the time that they take, retrying ends within one attempt
  -- for each ten milliseconds of its timeout and one more; and it ends with a success, or with an
  -- error once its timeout has passed.
  pub retry_until_available-ends :
      (fuel timeout interval : ℕ) (s : S)
      → ((d : ℕ) (s : S) → now s + d ≤ now (sleep d s))
      → ((s : S) → now s ≤ now (operation s).1)
      → timeout ≤ fuel * (10 * 10 ^ 6)
      → (r : Result E A × S) × ((retry_until_available now sleep operation
              (suc fuel)
              timeout
              interval
              s
            ≡ some r)
          × IsFinal (now s + timeout) r)
  unfolding retry_until_available
  retry_until_available-ends fuel timeout interval s sleeps goes_on h =
      retry_from-Comes (IsFinal (now s + timeout)) (now s + timeout) interval (λ s a e. tt)
        (λ s e bad late. late) sleeps goes_on fuel s (omega arith)

  abbrev pub IsOk : Result E A × S → Type 0
  IsOk (ok a, t) = Unit
  IsOk (err e, t) = ⊥

  -- Where, besides, what is waited for is available from some time on, and an attempt that begins
  -- before that time ends within the timeout, retrying succeeds.
  pub retry_until_available-succeeds :
      (fuel timeout interval available : ℕ) (s : S)
      → ((d : ℕ) (s : S) → now s + d ≤ now (sleep d s))
      → ((s : S) → now s ≤ now (operation s).1)
      → timeout ≤ fuel * (10 * 10 ^ 6)
      → ((t : S) → available ≤ now t → (a : A) × ((operation t).0 ≡ ok a))
      → ((t : S) → now t < available → now (operation t).1 < now s + timeout)
      → (r : Result E A × S) × ((retry_until_available now sleep operation
              (suc fuel)
              timeout
              interval
              s
            ≡ some r)
          × IsOk r)
  unfolding retry_until_available
  retry_until_available-succeeds fuel timeout interval available s sleeps goes_on h works ends =
      retry_from-Comes IsOk (now s + timeout) interval (λ s a e. tt) in_time sleeps goes_on fuel s
        (omega arith)
    where
      in_time :
          (t : S) (e : E) → (operation t).0 ≡ err e → now s + timeout ≤ now (operation t).1 → ⊥
      in_time t e bad late = elim (Bool-cases (leb available (now t))) [
        | inl there ↦
            let (a, good) = works t (leb→le available (now t) there) in
            let h' = rw good at bad in cc (h')
        | inr before ↦ ground (arith, ends t)
      ]
