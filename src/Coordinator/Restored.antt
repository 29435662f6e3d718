-- ===== src/Coordinator/Restored.antt =====
-- Klipper is started again only where it was running, and a start is verified.
use aldis.Prelude.{
  Bool, true, false, List, [], ◌∷◌, ◌≡◌, ◌≢◌, refl, ap, sym, ◌∙◌, Option, none, some, Result, ok,
  err, Exec, ◌>>=◌, bind-eq-ok, Result-cases, inl, inr,
}
use aldis.Prelude.Keeps.{Keeps, bind-Keeps}
use aldis.Service.{
  KlipperUnit, ServiceState, active, inactive, failed, transitioning, unknown, service_state, start,
  stop,
}
use aldis.Coordinator.{
  Ports, Coordinator, CoordinatorError, UpdateProgress, stopping_klipper, service, on_host,
  state_now, is_active, observed, observe, report_to, expect_inactive, expect_active,
  stop_if_active, ensure_klipper_stopped, start_and_verify, restore_from, restore_after_failure,
}
use aldis.Coordinator.Stopped.{on_host-ok}

module _ {S CE BE IE F Options Image Links : Type 0}
    (ports : Ports S CE BE IE F Options Image Links) (unit : KlipperUnit) where
  -- Systemd has just answered that the unit is active.
  abbrev pub Running : S → Type 0
  Running t = (s : S) × (service_state ports.run unit s ≡ (ok active, t))

  expect_active-Running :
      (state : ServiceState) (s : S) (c d : Coordinator S)
      → service_state ports.run unit s ≡ (ok state, c.host)
      → expect_active ports unit state c ≡ (ok tt, d)
      → Running d.host
  expect_active-Running active s c d e h =
      (s, e ∙ ap (λ (x : Coordinator S). (ok active, x.host)) (ap (λ x. x.1) h))
  expect_active-Running inactive s c d e h = cc
  expect_active-Running failed s c d e h = cc
  expect_active-Running (transitioning t) s c d e h = cc
  expect_active-Running (unknown t) s c d e h = cc

  -- A start of Klipper that succeeds ends with systemd's answer that it is active.
  pub start_and_verify-Running :
      (c d : Coordinator S) → start_and_verify ports unit c ≡ (ok tt, d) → Running d.host
  unfolding start_and_verify
  start_and_verify-Running c d h =
      let (u, c1, e1, k1) = bind-eq-ok (on_host service (start ports.run unit)) _ c d tt h in
      let (state, c2, e2, k2) = bind-eq-ok (state_now ports unit) _ c1 d tt k1 in
      expect_active-Running state c1.host c2 d
        (on_host-ok service (service_state ports.run unit) c1 c2 state e2).0 k2

  module _ (b : Option Bool) where
    abbrev Observed : Coordinator S → Type 0
    Observed c = c.first_observed_active ≡ b

    expect_inactive-Keeps :
        (state : ServiceState) → Keeps Observed (expect_inactive ports unit state)
    expect_inactive-Keeps inactive s p = p
    expect_inactive-Keeps active s p = p
    expect_inactive-Keeps failed s p = p
    expect_inactive-Keeps (transitioning t) s p = p
    expect_inactive-Keeps (unknown t) s p = p

    stop_if_active-Keeps :
        (progress : UpdateProgress → S → S) (state : ServiceState)
        → Keeps Observed (stop_if_active ports unit progress state)
    unfolding stop_if_active
    stop_if_active-Keeps progress active =
        let verify : Unit {0} → Exec (Coordinator S) (CoordinatorError CE BE IE) (Unit {0}) =
          λ u. state_now ports unit >>= (λ state. expect_inactive ports unit state) in
        let halt : Unit {0} → Exec (Coordinator S) (CoordinatorError CE BE IE) (Unit {0}) =
          λ u. on_host service (stop ports.run unit) >>= verify in
        bind-Keeps Observed (report_to ports unit progress stopping_klipper) halt (λ s p. p)
          (λ u.
            bind-Keeps Observed (on_host service (stop ports.run unit)) verify (λ s p. p)
              (λ v.
                bind-Keeps Observed (state_now ports unit)
                  (λ state. expect_inactive ports unit state) (λ s p. p) expect_inactive-Keeps))
    stop_if_active-Keeps progress inactive = expect_inactive-Keeps inactive
    stop_if_active-Keeps progress failed = expect_inactive-Keeps failed
    stop_if_active-Keeps progress (transitioning t) = expect_inactive-Keeps (transitioning t)
    stop_if_active-Keeps progress (unknown t) = expect_inactive-Keeps (unknown t)

  -- what is remembered once systemd has answered, or not
  remembered : {E : Type 0} → Option Bool → Result E ServiceState → Option Bool
  remembered first (ok state) = observed first state
  remembered first (err e) = first

  ensure-remembered :
      (progress : UpdateProgress → S → S) (c : Coordinator S)
      → (ensure_klipper_stopped ports unit progress c).1.first_observed_active
        ≡ remembered c.first_observed_active (service_state ports.run unit c.host).0
  unfolding ensure_klipper_stopped observe remembered
  ensure-remembered progress c = elim (Result-cases (service_state ports.run unit c.host).0) [
    | inl (state, e) ↦
        rw e (stop_if_active-Keeps (observed c.first_observed_active state) progress state _ refl)
    | inr (x, e) ↦ rw e refl
  ]

  nothing_to_restore :
      (c : Coordinator S) (first : Option Bool)
      → c.first_observed_active ≡ first
      → first ≢ some true
      → restore_after_failure ports unit c ≡ (ok tt, c)
  unfolding restore_after_failure
  nothing_to_restore c none e h = ap (λ b. restore_from ports unit b c) e
  nothing_to_restore c (some true) e h = absurd (h refl)
  nothing_to_restore c (some false) e h = ap (λ b. restore_from ports unit b c) e

  -- Further attempts to stop Klipper, before each of which the host may have changed in any way.
  abbrev pub again : (UpdateProgress → S → S) → List (S → S) → Coordinator S → Coordinator S
  again progress [] c = c
  again progress (change ∷ changes) c =
      let changed : Coordinator S = record {
        host = change c.host;
        first_observed_active = c.first_observed_active;
      } in
      again progress changes (ensure_klipper_stopped ports unit progress changed).1

  first_kept :
      {E : Type 0} (b : Bool) (answer : Result E ServiceState) → remembered (some b) answer ≡ some b
  unfolding remembered
  first_kept b (ok state) = refl
  first_kept b (err e) = refl

  again-Observed :
      (progress : UpdateProgress → S → S) (changes : List (S → S)) (c : Coordinator S) (b : Bool)
      → c.first_observed_active ≡ some b
      → (again progress changes c).first_observed_active ≡ some b
  again-Observed progress [] c b h = h
  again-Observed progress (change ∷ changes) c b h =
      let changed : Coordinator S = record {
        host = change c.host;
        first_observed_active = c.first_observed_active;
      } in
      let answer = (service_state ports.run unit (change c.host)).0 in
      again-Observed progress changes (ensure_klipper_stopped ports unit progress changed).1 b (
        ensure-remembered progress changed
        ∙ ap (λ first. remembered first answer) h
        ∙ first_kept b answer)

  -- What restoring a coordinator does by the state in which Klipper was first seen: it is started,
  -- and if that succeeds systemd has just answered that it is active; or nothing is done.
  abbrev pub Restores : ServiceState → Coordinator S → Type 0
  Restores active d =
      (restore_after_failure ports unit d ≡ start_and_verify ports unit d)
      × ((u : Coordinator S) → restore_after_failure ports unit d ≡ (ok tt, u) → Running u.host)
  Restores inactive d = restore_after_failure ports unit d ≡ (ok tt, d)
  Restores failed d = restore_after_failure ports unit d ≡ (ok tt, d)
  Restores (transitioning t) d = restore_after_failure ports unit d ≡ (ok tt, d)
  Restores (unknown t) d = restore_after_failure ports unit d ≡ (ok tt, d)

  observed-Restores :
      (state : ServiceState) (d : Coordinator S)
      → d.first_observed_active ≡ some (is_active state)
      → Restores state d
  unfolding restore_after_failure
  observed-Restores active d h =
      let starts : restore_after_failure ports unit d ≡ start_and_verify ports unit d =
        ap (λ b. restore_from ports unit b d) h in
      (starts, λ u e. start_and_verify-Running d u (sym starts ∙ e))
  observed-Restores inactive d h = nothing_to_restore d (some false) h (λ e. cc e)
  observed-Restores failed d h = nothing_to_restore d (some false) h (λ e. cc e)
  observed-Restores (transitioning t) d h = nothing_to_restore d (some false) h (λ e. cc e)
  observed-Restores (unknown t) d h = nothing_to_restore d (some false) h (λ e. cc e)

  -- A coordinator that has observed nothing yet, and whose first attempt to stop Klipper sees it in
  -- some state, remembers that one: however often it stops Klipper after that, and however the host
  -- has changed in between, restoring after a failure starts Klipper if it was active at first, and
  -- then succeeds only if systemd answers that it is active; and does nothing if it was not.
  pub restore_after_failure-remembers :
      (progress : UpdateProgress → S → S) (c : Coordinator S) (state : ServiceState)
      (changes : List (S → S))
      → c.first_observed_active ≡ none
      → (service_state ports.run unit c.host).0 ≡ ok state
      → Restores state (again progress changes (ensure_klipper_stopped ports unit progress c).1)
  unfolding remembered
  restore_after_failure-remembers progress c state changes new seen =
      let d = (ensure_klipper_stopped ports unit progress c).1 in
      let answer = (service_state ports.run unit c.host).0 in
      let first : d.first_observed_active ≡ some (is_active state) =
        ensure-remembered progress c
        ∙ ap (λ b. remembered b answer) new
        ∙ ap (remembered none) seen in
      observed-Restores state (again progress changes d)
        (again-Observed progress changes d (is_active state) first)
