-- ===== src/Update/Run/Rounds.antt =====
-- One round of a run names what was updated before it, or the target as well.
use aldis.Prelude.{
  Bool, true, false, Bool-cases, List, [], ◌∷◌, ◌++◌, Option, none, some, Result, ok, err, Exec,
  ◌>>=◌, ◌>>◌, pure, continue, ◌≡◌, ◌⊎◌, refl, inl, inr,
}
use aldis.Prelude.Text.{Text}
use aldis.Flash.{FlashResult}
use aldis.Fleet.{Mcu}
use aldis.Prepare.{FlashRequest}
use aldis.Selection.{downgrade_of}
use aldis.Vendors.Beacon.Image.{FirmwareImage}
use aldis.Prebuilt.Requests.{PrebuiltLinks, NoImage}
use aldis.Coordinator.{
  Coordinator, PendingBuild, FlashCoordinatorError, approve, on_host, prepare, flash_prebuilt,
  execute_and_flash_system_with_progress,
}
use aldis.Update.{
  Detail, Advice, ensure_printer_idle, refused, not_prepared, not_in_inventory, would_downgrade,
  no_image, not_back, failure_message, wait_for_application, plain,
}
use aldis.Update.Run.{
  Context, Failure, Run, hook, or_else, otherwise, fail_with_detail, fail, post_flash_failure,
  restored, restored_if, without_image, flash_failure, flash_of, flash_with, prepared_for,
  check_printer, update_mcu, prepare_and_update, if_approved, asked, one_target,
  allows_klipper_restore,
}

module _ {S V CE BE IE F Options ME DE W : Type 0}
    (x : Context S V CE BE IE F Options ME DE W) where
  -- what holds of a result, where a failure names what was updated before
  abbrev pub Holds : {A : Type 0} → List Text → (A → Type 0) → Result (Failure x) A → Type 0
  Holds updated Q (ok a) = Q a
  Holds updated Q (err f) = f.updated ≡ updated

  abbrev pub After : {A : Type 0} → List Text → (A → Type 0) → Run x A → Type 0
  After updated Q m = (c : Coordinator S) → Holds updated Q (m c).0

  continue-After :
      {A B : Type 0} (updated : List Text) (Q : A → Type 0) (R : B → Type 0)
      (r : Result (Failure x) A) (f : A → Run x B) (c : Coordinator S)
      → Holds updated Q r
      → ((a : A) → Q a → After updated R (f a))
      → Holds updated R (continue r f c).0
  continue-After updated Q R (ok a) f c h k = k a h c
  continue-After updated Q R (err e) f c h k = h

  pub bind-After :
      {A B : Type 0} (updated : List Text) (Q : A → Type 0) (R : B → Type 0) (m : Run x A)
      (f : A → Run x B)
      → After updated Q m
      → ((a : A) → Q a → After updated R (f a))
      → After updated R (m >>= f)
  bind-After updated Q R m f h k c = continue-After updated Q R (m c).0 f (m c).1 (h c) k

  otherwise-After :
      {E A : Type 0} (updated : List Text) (r : Result E A) (f : E → Run x A) (c : Coordinator S)
      → ((e : E) → After updated (λ a. Unit {0}) (f e))
      → Holds updated (λ (a : A). Unit {0}) (otherwise r f c).0
  otherwise-After updated (ok a) f c l = tt
  otherwise-After updated (err e) f c l = l e c

  pub or_else-After :
      {E A : Type 0} (updated : List Text) (m : Exec (Coordinator S) E A) (f : E → Run x A)
      → ((e : E) → After updated (λ a. Unit {0}) (f e))
      → After updated (λ a. Unit {0}) (or_else m f)
  or_else-After updated m f l c = otherwise-After updated (m c).0 f (m c).1 l

  pub fail-After :
      {A : Type 0} (updated : List Text) (Q : A → Type 0)
      (detail : Detail CE BE IE F ME (NoImage DE) W) (advice : Advice CE BE IE) (mcu : Option Text)
      → After updated Q (fail_with_detail x detail advice mcu updated)
  unfolding fail_with_detail
  fail-After updated Q detail advice mcu c = refl

  pub hook-After :
      {A : Type 0} (updated : List Text) (Q : A → Type 0) (f : S → S) (next : Run x A)
      → After updated Q next
      → After updated Q (hook x f >> next)
  hook-After updated Q f next h =
      bind-After updated (λ u. Unit {0}) Q (hook x f) (λ u. next) (λ c. tt) (λ u v. h)

  module _ (name : Text) (updated : List Text) where
    flash_failure-After :
        (e : FlashCoordinatorError CE BE IE F)
        → After updated (λ (a : FlashResult). Unit {0}) (flash_failure x name updated e)
    flash_failure-After e =
        bind-After updated (λ r. Unit {0}) (λ a. Unit {0})
          (restored_if x (allows_klipper_restore x.harmless e)) _
          (told (allows_klipper_restore x.harmless e))
          (λ r u. fail-After updated (λ a. Unit {0}) _ (failure_message r) (some name))
      where
        told : (b : Bool) → After updated (λ r. Unit {0}) (restored_if x b)
        told true c = tt
        told false c = tt

    without_image-After :
        (e : NoImage DE)
        → After updated
            (λ (a : FlashRequest (FirmwareImage V) PrebuiltLinks). Unit {0})
            (without_image x name updated e)
    without_image-After e =
        bind-After {B = FlashRequest (FirmwareImage V) PrebuiltLinks} updated (λ r. Unit {0})
          (λ a. Unit {0}) (restored x)
          (λ r. fail_with_detail x (no_image e) (failure_message (some r)) (some name) updated)
          (λ c. tt)
          (λ r u.
            fail-After updated (λ a. Unit {0}) (no_image e) (failure_message (some r)) (some name))

    flash_with-After :
        (pending : PendingBuild)
        (prepared : Option (Exec S (NoImage DE) (FlashRequest (FirmwareImage V) PrebuiltLinks)))
        → After updated (λ (a : FlashResult). Unit {0}) (flash_with x name updated pending prepared)
    flash_with-After pending none =
        or_else-After updated
          (flash_of x (
            execute_and_flash_system_with_progress x.ports x.unit (approve pending) x.options
              (x.hooks.progress name)))
          (flash_failure x name updated) flash_failure-After
    flash_with-After pending (some prepared) =
        bind-After updated (λ r. Unit {0}) (λ a. Unit {0})
          (or_else (on_host (λ e. e) prepared) (without_image x name updated)) _
          (or_else-After updated (on_host (λ e. e) prepared) (without_image x name updated)
            without_image-After)
          (λ request u.
            or_else-After updated
              (flash_prebuilt x.ports x.unit (approve pending) request x.options
                (x.hooks.progress name))
              (flash_failure x name updated) flash_failure-After)

    check-After :
        (checked : Bool) → After updated (λ u. Unit {0}) (check_printer x name updated checked)
    unfolding check_printer
    check-After true = λ c. tt
    check-After false =
        or_else-After updated (on_host (λ e. e) (ensure_printer_idle x.moonraker))
          (λ e. fail x (refused e) (some name) updated)
          (λ e. fail-After {A = Unit {0}} updated (λ u. Unit {0}) (refused e) plain (some name))

    update-After :
        (mcu : Mcu) (pending : PendingBuild)
        → After updated
            (λ now. now ≡ updated ++ (name ∷ []))
            (update_mcu x name mcu updated pending)
    unfolding update_mcu
    update-After mcu pending =
        let Now : List Text → Type 0 = λ now. now ≡ updated ++ (name ∷ []) in
        let succeeded : Run x (List Text) =
          hook x (x.hooks.step_succeeded wait_for_application) >> pure (updated ++ (name ∷ [])) in
        let waited : Run x (List Text) =
          or_else (on_host (λ e. e) (x.waits.for_application mcu))
            (λ e. post_flash_failure x (not_back e) (some name) updated)
          >> succeeded in
        let started : Run x (List Text) =
          hook x (x.hooks.step_started wait_for_application) >> waited in
        bind-After updated (λ a. Unit {0}) Now
          (flash_with x name updated pending (prepared_for x name mcu pending))
          (λ (flash : FlashResult).
            hook x (x.hooks.flashed name mcu.kconfig flash.padded_bytes) >> started)
          (flash_with-After pending (prepared_for x name mcu pending))
          (λ flash u.
            hook-After updated Now (x.hooks.flashed name mcu.kconfig flash.padded_bytes) started (
              hook-After updated Now (x.hooks.step_started wait_for_application) waited (
                bind-After updated (λ u. Unit {0}) Now
                  (or_else (on_host (λ e. e) (x.waits.for_application mcu))
                    (λ e. post_flash_failure x (not_back e) (some name) updated))
                  (λ u. succeeded)
                  (or_else-After updated (on_host (λ e. e) (x.waits.for_application mcu))
                    (λ e. post_flash_failure x (not_back e) (some name) updated)
                    (λ e.
                      fail-After {A = Unit {0}} updated (λ u. Unit {0}) (not_back e)
                        (failure_message none) (some name)))
                  (λ a u.
                    hook-After updated Now (x.hooks.step_succeeded wait_for_application)
                      (pure (updated ++ (name ∷ []))) (λ c. refl)))))

    prepare-After :
        (mcu : Mcu) (checked : Bool)
        → After updated
            (λ (r : List Text × Bool). r.0 ≡ updated ++ (name ∷ []))
            (prepare_and_update x name mcu updated checked)
    unfolding prepare_and_update
    prepare-After mcu checked =
        let Now : List Text × Bool → Type 0 = λ r. r.0 ≡ updated ++ (name ∷ []) in
        bind-After updated (λ p. Unit {0}) Now
          (or_else (prepare x.ports x.unit x.mcus x.workspace name x.clean)
            (λ e. fail x (not_prepared name e) (some name) updated))
          _
          (or_else-After updated (prepare x.ports x.unit x.mcus x.workspace name x.clean)
            (λ e. fail x (not_prepared name e) (some name) updated)
            (λ e.
              fail-After {A = PendingBuild} updated (λ p. Unit {0}) (not_prepared name e) plain
                (some name)))
          (λ pending u.
            bind-After updated (λ u. Unit {0}) Now (check_printer x name updated checked) _
              (check-After checked)
              (λ a u.
                bind-After updated (λ now. now ≡ updated ++ (name ∷ [])) Now
                  (update_mcu x name mcu updated pending) _ (update-After mcu pending)
                  (λ now same c. same)))

    -- the target, or nothing, is added
    abbrev pub Grows : List Text × Bool → Type 0
    Grows r = (r.0 ≡ updated) ⊎ (r.0 ≡ updated ++ (name ∷ []))

    weaken :
        (r : Result (Failure x) (List Text × Bool))
        → Holds updated (λ (r : List Text × Bool). r.0 ≡ updated ++ (name ∷ [])) r
        → Holds updated Grows r
    weaken (ok r) h = inr h
    weaken (err f) h = h

    approved-After :
        (mcu : Mcu) (checked answer : Bool)
        → After updated Grows (if_approved x name mcu updated checked answer)
    approved-After mcu checked false = λ c. inl refl
    approved-After mcu checked true = λ c.
        weaken (prepare_and_update x name mcu updated checked c).0 (prepare-After mcu checked c)

    pub one-After :
        (found : Option Mcu) (checked : Bool)
        → After updated Grows (one_target x name found updated checked)
    unfolding one_target
    one-After none checked = fail-After updated Grows (not_in_inventory name) plain (some name)
    one-After (some mcu) checked = elim (Bool-cases (downgrade_of x.semver mcu x.target_versions)) [
      | inl down ↦
          rw (down, one_target) (fail-After updated Grows (would_downgrade name) plain (some name))
      | inr up ↦
          rw (up, one_target)
            (bind-After updated (λ answer. Unit {0}) Grows (asked x name mcu)
              (if_approved x name mcu updated checked) (λ c. tt)
              (λ answer u. approved-After mcu checked answer))
    ]
