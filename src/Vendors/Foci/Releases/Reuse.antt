-- ===== src/Vendors/Foci/Releases/Reuse.antt =====
-- GitHub is not asked again too soon, and a release that was found is not forgotten.
use aldis.Prelude.{
  ℕ, ◌+◌, ◌≤◌, ◌<◌, ◌≡◌, ◌⊎◌, Bool, true, false, List, [], ◌∷◌, Option, none, some, Result, ok, err,
  Exec, refl, arith, inl, inr, Bool-cases, sym,
}
use aldis.Vendors.Foci.{Release}
use aldis.Vendors.Foci.Releases.{CachedLookup, release_reuse, lookup_retry, is_fresh, kept, get}

-- The lookups made, the last first: when, and what was found.
abbrev pub Log : Type 0 → Type 0
Log V = List (ℕ × Option (Release V))

module _ {V : Type 0} where
  abbrev pub result_of : {E : Type 0} → Result E (Release V) → Option (Release V)
  result_of (ok release) = some release
  result_of (err e) = none

  -- A lookup that is noted down.
  abbrev pub noted : {S E : Type 0} → ℕ → Exec S E (Release V) → Exec (Log V × S) E (Release V)
  noted now lookup (log, s) = let (r, s') = lookup s in (r, ((now, result_of r) ∷ log, s'))

  -- how long after a lookup the next one may be made
  abbrev pub pause : Option (Release V) → ℕ
  pause (some release) = release_reuse
  pause none = lookup_retry

  -- The lookups are an hour apart, or five minutes after one that failed.
  abbrev pub IsSpaced : Log V → Type 0
  IsSpaced [] = Unit
  IsSpaced (entry ∷ []) = Unit
  IsSpaced (later ∷ earlier ∷ log) =
      (earlier.0 + pause earlier.1 ≤ later.0) × IsSpaced (earlier ∷ log)

  -- What is asked at this time: GitHub, where nothing is known or the pause is over; otherwise
  -- nothing.
  abbrev pub IsAsked : ℕ → Log V → Log V → Type 0
  IsAsked now [] log' = (found : Option (Release V)) × (log' ≡ (now, found) ∷ [])
  IsAsked now (last ∷ log) log' =
      ((last.0 + pause last.1 ≤ now)
        × ((found : Option (Release V)) × (log' ≡ (now, found) ∷ (last ∷ log))))
      ⊎ ((now < last.0 + pause last.1) × (log' ≡ last ∷ log))

  -- the release that was last found
  abbrev pub last_found : Log V → Option (Release V)
  last_found [] = none
  last_found ((at, some release) ∷ log) = some release
  last_found ((at, none) ∷ log) = last_found log

  abbrev has_failed : Option (Release V) → Bool
  has_failed (some release) = false
  has_failed none = true

  -- The cache holds the last lookup, and the release that was last found.
  abbrev Remembers : Option (CachedLookup V) → Log V → Type 0
  Remembers none log = log ≡ []
  Remembers (some last) [] = ⊥
  Remembers (some last) ((at, found) ∷ log) =
      (last.at ≡ at)
      × ((last.failed ≡ has_failed found) × (last.release ≡ last_found ((at, found) ∷ log)))

  abbrev IsSound : Option (CachedLookup V) → Log V → Type 0
  IsSound cache log = Remembers cache log × IsSpaced log

  remembered :
      (last : CachedLookup V) (log : Log V)
      → Remembers (some last) log
      → last.release ≡ last_found log
  remembered last [] h = absurd h
  remembered last (entry ∷ log) h = h.1.1

  module _ {S E : Type 0} (lookup : Exec S E (Release V)) where
    renewed-IsSound :
        (now : ℕ) (cache : Option (CachedLookup V)) (log : Log V) (r : Result E (Release V))
        → Remembers cache log
        → IsSpaced ((now, result_of r) ∷ log)
        → IsSound (some (kept now cache r)) ((now, result_of r) ∷ log)
    renewed-IsSound now cache log (ok release) h k = ((refl, (refl, refl)), k)
    renewed-IsSound now none log (err e) h k = ((refl, (refl, sym (last_found_none log h))), k)
      where
        last_found_none : (log : Log V) → log ≡ [] → last_found log ≡ none
        last_found_none [] e = refl
        last_found_none (x ∷ log) e = cc
    renewed-IsSound now (some last) [] (err e) h k = absurd h
    renewed-IsSound now (some last) (entry ∷ log) (err e) h k = ((refl, (refl, h.1.1)), k)

    due-later :
        (now : ℕ) (last : CachedLookup V) {at : ℕ} (found : Option (Release V))
        → is_fresh now last ≡ false
        → last.failed ≡ has_failed found
        → last.at ≡ at
        → at + pause found ≤ now
    due-later now last (some release) due failed same = ground arith
    due-later now last none due failed same = ground arith

    due-IsSpaced :
        (now : ℕ) (last : CachedLookup V) (log : Log V) (found : Option (Release V))
        → is_fresh now last ≡ false
        → Remembers (some last) log
        → IsSpaced log
        → IsSpaced ((now, found) ∷ log)
    due-IsSpaced now last [] found due h k = tt
    due-IsSpaced now last ((at, some release) ∷ log) found due h k =
        (due-later now last (some release) due h.1.0 h.0, k)
    due-IsSpaced now last ((at, none) ∷ log) found due h k =
        (due-later now last none due h.1.0 h.0, k)

    get-IsSound :
        (now : ℕ) (cache : Option (CachedLookup V)) (log : Log V) (s : S)
        → IsSound cache log
        → let (answer, (cache', (log', s'))) = get now (noted now lookup) cache (log, s) in
          IsSound cache' log' × (answer ≡ last_found log')
    unfolding get
    get-IsSound now none log s h =
        let r = (lookup s).0 in
        let sound = renewed-IsSound now none log r h.0 (first-IsSpaced log (result_of r) h.0) in
        (sound, sound.0.1.1)
      where
        first-IsSpaced :
            (log : Log V) (found : Option (Release V)) → log ≡ [] → IsSpaced ((now, found) ∷ log)
        first-IsSpaced [] found e = tt
        first-IsSpaced (x ∷ log) found e = cc
    get-IsSound now (some last) log s h = elim (Bool-cases (is_fresh now last)) [
      | inl fresh ↦ rw (fresh, get) (h, remembered last log h.0)
      | inr due ↦
          let r = (lookup s).0 in
          let sound =
            renewed-IsSound now (some last) log r h.0
              (due-IsSpaced now last log (result_of r) due h.0 h.1) in
          rw (due, get) (sound, sound.0.1.1)
    ]

    due-at :
        (now : ℕ) (last : CachedLookup V) (at : ℕ) (found : Option (Release V))
        → is_fresh now last ≡ false
        → last.failed ≡ has_failed found
        → last.at ≡ at
        → at + pause found ≤ now
    due-at now last at found due failed same = due-later now last found due failed same

    fresh-early :
        (now : ℕ) (last : CachedLookup V) (at : ℕ) (found : Option (Release V))
        → is_fresh now last ≡ true
        → last.failed ≡ has_failed found
        → last.at ≡ at
        → now < at + pause found
    fresh-early now last at (some release) fresh failed same = ground arith
    fresh-early now last at none fresh failed same = ground arith

    get-IsAsked :
        (now : ℕ) (cache : Option (CachedLookup V)) (log : Log V) (s : S)
        → Remembers cache log
        → let (answer, (cache', (log', s'))) = get now (noted now lookup) cache (log, s) in
          IsAsked now log log'
    unfolding get
    get-IsAsked now none [] s h = (result_of (lookup s).0, refl)
    get-IsAsked now none (entry ∷ log) s h = absurd (cc h)
    get-IsAsked now (some last) [] s h = absurd h
    get-IsAsked now (some last) ((at, found) ∷ log) s h = elim (Bool-cases (is_fresh now last)) [
      | inl fresh ↦ rw (fresh, get) (inr (fresh-early now last at found fresh h.1.0 h.0, refl))
      | inr due ↦
          rw (due, get)
            (inl (due-at now last at found due h.1.0 h.0, (result_of (lookup s).0, refl)))
    ]

    -- A cache that is asked at these times, from the first to the last.
    abbrev pub run :
        List ℕ → Option (CachedLookup V) → Log V × S → Option (CachedLookup V) × (Log V × S)
    run [] cache w = (cache, w)
    run (now ∷ times) cache w =
        let (answer, (cache', w')) = get now (noted now lookup) cache w in run times cache' w'

    run-IsSound :
        (times : List ℕ) (cache : Option (CachedLookup V)) (log : Log V) (s : S)
        → IsSound cache log
        → let (cache', (log', s')) = run times cache (log, s) in IsSound cache' log'
    run-IsSound [] cache log s h = h
    run-IsSound (now ∷ times) cache log s h =
        let (answer, (cache', (log', s'))) = get now (noted now lookup) cache (log, s) in
        run-IsSound times cache' log' s' (get-IsSound now cache log s h).0

    -- However often a new cache has been asked, and whenever, the next question asks GitHub exactly
    -- if it was never asked, or an hour has passed since it found a release, or five minutes since a
    -- lookup that failed; all lookups are so far apart; and the answer is the release that a lookup
    -- last found.
    pub get-IsSpaced :
        (times : List ℕ) (now : ℕ) (s : S)
        → let (cache, (log, s')) = run times none ([], s) in
          let (answer, (cache', (log', s''))) = get now (noted now lookup) cache (log, s') in
          IsSpaced log' × (answer ≡ last_found log') × IsAsked now log log'
    get-IsSpaced times now s =
        let (cache, (log, s')) = run times none ([], s) in
        let before = run-IsSound times none [] s (refl, tt) in
        let (sound, same) = get-IsSound now cache log s' before in
        (sound.1, same, get-IsAsked now cache log s' before.0)
