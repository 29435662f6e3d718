-- ===== src/Update/Run/Sequence.antt =====
-- What a run says it has updated are targets, in their order, whether the run fails or not.
use aldis.Prelude.{
  Bool, false, List, [], ◌∷◌, ◌++◌, append-nil, append_assoc, none, Result, ok, err, ◌>>◌, pure,
  continue, ◌≡◌, refl, sym, ◌∙◌, inl, inr,
}
use aldis.Prelude.Text.{Text}
use aldis.Fleet.{find_mcu}
use aldis.Coordinator.{Coordinator, on_host, start_and_verify}
use aldis.Update.{not_started, not_reconnected, failure_message, start_klipper, reconnect, plain}
use aldis.Update.Run.{
  Context, Failure, Run, hook, or_else, fail, post_flash_failure, one_target, run_targets, finish,
  run_updates,
}
use aldis.Update.Run.Rounds.{
  Holds, After, Grows, bind-After, or_else-After, fail-After, hook-After, one-After,
}

-- Some of a list, in its order.
pub data IsPart : List Text → List Text → Type 0 where
  stop : {names : List Text} → IsPart [] names
  skip : {part names : List Text} {name : Text} → IsPart part names → IsPart part (name ∷ names)
  take :
      {part names : List Text} {name : Text}
      → IsPart part names
      → IsPart (name ∷ part) (name ∷ names)

module _ {S V CE BE IE F Options ME DE W : Type 0}
    (x : Context S V CE BE IE F Options ME DE W) where
  -- what was updated before, and some of these targets
  abbrev IsSome : List Text → List Text → List Text → Type 0
  IsSome updated names now = (part : List Text) × ((now ≡ updated ++ part) × IsPart part names)

  abbrev Sums : List Text → List Text → Result (Failure x) (List Text) → Type 0
  Sums updated names (ok now) = IsSome updated names now
  Sums updated names (err f) = IsSome updated names f.updated

  later :
      (updated names : List Text) (name : Text) (r : Result (Failure x) (List Text))
      → Sums updated names r
      → Sums updated (name ∷ names) r
  later updated names name (ok now) (part, (same, h)) = (part, (same, skip h))
  later updated names name (err f) (part, (same, h)) = (part, (same, skip h))

  longer :
      (updated names : List Text) (name : Text) (r : Result (Failure x) (List Text))
      → Sums (updated ++ (name ∷ [])) names r
      → Sums updated (name ∷ names) r
  longer updated names name (ok now) (part, (same, h)) =
      (name ∷ part, (same ∙ append_assoc updated (name ∷ []) part, take h))
  longer updated names name (err f) (part, (same, h)) =
      (name ∷ part, (same ∙ append_assoc updated (name ∷ []) part, take h))

  -- a round, and the rounds after it
  next-Sums :
      (name : Text) (names updated : List Text) (r : Result (Failure x) (List Text × Bool))
      (d : Coordinator S)
      → ((u : List Text) (b : Bool) → Sums u names (run_targets x names u b d).0)
      → Holds x updated (Grows x name updated) r
      → Sums updated
          (name ∷ names)
          (continue r (λ (r : List Text × Bool). run_targets x names r.0 r.1) d).0
  next-Sums name names updated (err f) d ih h = ([], (h ∙ sym (append-nil updated), stop))
  next-Sums name names updated (ok (now, b)) d ih (inl same) =
      rw same (later updated names name (run_targets x names updated b d).0 (ih updated b))
  next-Sums name names updated (ok (now, b)) d ih (inr same) = rw same (
      longer updated names name (run_targets x names (updated ++ (name ∷ [])) b d).0
        (ih (updated ++ (name ∷ [])) b))

  run_targets-Sums :
      (names updated : List Text) (checked : Bool) (c : Coordinator S)
      → Sums updated names (run_targets x names updated checked c).0
  unfolding run_targets
  run_targets-Sums [] updated checked c = ([], (sym (append-nil updated), stop))
  run_targets-Sums (name ∷ names) updated checked c =
      let round = one_target x name (find_mcu name x.mcus) updated checked c in
      next-Sums name names updated (round.0) (round.1) (λ u b. run_targets-Sums names u b (round.1))
        (one-After x name updated (find_mcu name x.mcus) checked c)

  finish-After : (updated : List Text) → After x updated (λ now. now ≡ updated) (finish x updated)
  unfolding finish
  finish-After [] = λ c. refl
  finish-After (name ∷ names) =
      let all_done : List Text = name ∷ names in
      let Same : List Text → Type 0 = λ now. now ≡ all_done in
      let reconnected : Run x (List Text) =
        hook x (x.hooks.step_succeeded reconnect) >> pure all_done in
      let waited : Run x (List Text) =
        or_else (on_host (λ e. e) (x.waits.for_mcus all_done))
          (λ e. fail x (not_reconnected e) none all_done)
        >> reconnected in
      let asked : Run x (List Text) = hook x (x.hooks.step_started reconnect) >> waited in
      let running : Run x (List Text) = hook x (x.hooks.step_succeeded start_klipper) >> asked in
      let start : Run x (Unit {0}) =
        or_else (λ c. start_and_verify x.ports x.unit c)
          (λ e. post_flash_failure x (not_started e) none all_done) in
      hook-After x all_done Same (x.hooks.step_started start_klipper) (start >> running) (
        bind-After x all_done (λ u. Unit {0}) Same start (λ u. running)
          (or_else-After x all_done (λ c. start_and_verify x.ports x.unit c)
            (λ e. post_flash_failure x (not_started e) none all_done)
            (λ e.
              fail-After x {A = Unit {0}} all_done (λ u. Unit {0}) (not_started e)
                (failure_message none) none))
          (λ a u. hook-After x all_done Same (x.hooks.step_succeeded start_klipper) asked (
            hook-After x all_done Same (x.hooks.step_started reconnect) waited (
              bind-After x all_done (λ u. Unit {0}) Same
                (or_else (on_host (λ e. e) (x.waits.for_mcus all_done))
                  (λ e. fail x (not_reconnected e) none all_done))
                (λ u. reconnected)
                (or_else-After x all_done (on_host (λ e. e) (x.waits.for_mcus all_done))
                  (λ e. fail x (not_reconnected e) none all_done)
                  (λ e.
                    fail-After x {A = Unit {0}} all_done (λ u. Unit {0}) (not_reconnected e) plain
                      none))
                (λ a u.
                  hook-After x all_done Same (x.hooks.step_succeeded reconnect) (pure all_done)
                    (λ c. refl))))))

  -- what a result says was updated
  abbrev pub told : Result (Failure x) (List Text) → List Text
  told (ok updated) = updated
  told (err f) = f.updated

  -- Whatever a run comes to, the MCUs that it says it has updated are some of the targets, each as
  -- often and in the order in which they were given.
  pub run_updates-IsPart :
      (targets : List Text) (c : Coordinator S) → IsPart (told (run_updates x targets c).0) targets
  unfolding run_updates
  run_updates-IsPart targets c =
      let (r, d) = run_targets x targets [] false c in
      ended r d (run_targets-Sums targets [] false c)
    where
      finished :
          (now : List Text) (r : Result (Failure x) (List Text))
          → Holds x now (λ u. u ≡ now) r
          → IsPart now targets
          → IsPart (told r) targets
      finished now (ok u) same h = rw same h
      finished now (err f) same h = rw same h

      ended :
          (r : Result (Failure x) (List Text)) (d : Coordinator S)
          → Sums [] targets r
          → IsPart (told (continue r (finish x) d).0) targets
      ended (err f) d (part, (same, h)) = rw same h
      ended (ok now) d (part, (same, h)) =
          finished now (finish x now d).0 (finish-After now d) (rw same h)
