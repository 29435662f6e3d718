-- ===== src/Coordinator/Stopped.antt =====
-- Nothing is flashed before systemd has answered that Klipper is inactive.
use aldis.Prelude.{
  false, ◌≡◌, inl, inr, refl, ap, sym, ◌∙◌, arith, Result, ok, err, Exec, ◌>>=◌, bind-eq-ok,
  Result-cases, Bool-cases,
}
use aldis.Flash.{FlashResult}
use aldis.Service.{
  KlipperUnit, ServiceState, active, inactive, failed, transitioning, unknown, service_state, stop,
}
use aldis.Prepare.{is_for, FlashRequest}
use aldis.Prepare.Destined.{is_for_iff}
use aldis.Coordinator.{
  Ports, Coordinator, CoordinatorError, FlashCoordinatorError, coordinator, flash_failed, service,
  request_for_another_mcu, UpdateProgress, stopping_klipper, ApprovedBuild, on_host, state_now,
  observe, expect_inactive, report_to, stop_if_active, ensure_klipper_stopped, send, flash_prebuilt,
}

module _ {S E F A : Type 0} where
  pub on_host-ok :
      (wrap : E → F) (m : Exec S E A) (c d : Coordinator S) (a : A)
      → on_host wrap m c ≡ (ok a, d)
      → (m c.host ≡ (ok a, d.host)) × (d.first_observed_active ≡ c.first_observed_active)
  on_host-ok wrap m c d a h =
      let same = ap (λ x. x.1) h in
      elim (Result-cases (m c.host).0) [
        | inl (b, e) ↦
            let is : b ≡ a = ground (arith, rw e at (ap (λ x. x.0) h)) in
            (
              (λ i. ((e ∙ ap ok is) i, (same i).host)),
              sym (ap (λ (x : Coordinator S). x.first_observed_active) same),
            )
        | inr (x, e) ↦ cc (rw e at (ap (λ x. x.0) h))
      ]

module _ {S CE BE IE F Options Image Links : Type 0}
    (ports : Ports S CE BE IE F Options Image Links) (unit : KlipperUnit) where
  -- Systemd has just answered that the unit is inactive.
  abbrev pub Stopped : S → Type 0
  Stopped t = (s : S) × (service_state ports.run unit s ≡ (ok inactive, t))

  expect_inactive-Stopped :
      (state : ServiceState) (s : S) (c d : Coordinator S)
      → service_state ports.run unit s ≡ (ok state, c.host)
      → expect_inactive ports unit state c ≡ (ok tt, d)
      → Stopped d.host
  expect_inactive-Stopped inactive s c d e h =
      (s, e ∙ ap (λ (x : Coordinator S). (ok inactive, x.host)) (ap (λ x. x.1) h))
  expect_inactive-Stopped active s c d e h = cc
  expect_inactive-Stopped failed s c d e h = cc
  expect_inactive-Stopped (transitioning t) s c d e h = cc
  expect_inactive-Stopped (unknown t) s c d e h = cc

  stop_if_active-Stopped :
      (progress : UpdateProgress → S → S) (state : ServiceState) (s : S) (c d : Coordinator S)
      → service_state ports.run unit s ≡ (ok state, c.host)
      → stop_if_active ports unit progress state c ≡ (ok tt, d)
      → Stopped d.host
  unfolding stop_if_active
  stop_if_active-Stopped progress active s c d e h =
      let verify : Unit {0} → Exec (Coordinator S) (CoordinatorError CE BE IE) (Unit {0}) =
        λ u. state_now ports unit >>= (λ state. expect_inactive ports unit state) in
      let halt : Unit {0} → Exec (Coordinator S) (CoordinatorError CE BE IE) (Unit {0}) =
        λ u. on_host service (stop ports.run unit) >>= verify in
      let (u1, c1, e1, k1) =
        bind-eq-ok (report_to ports unit progress stopping_klipper) halt c d tt h in
      let (u2, c2, e2, k2) = bind-eq-ok (on_host service (stop ports.run unit)) verify c1 d tt k1 in
      let (state, c3, e3, k3) =
        bind-eq-ok (state_now ports unit) (λ state. expect_inactive ports unit state) c2 d tt k2 in
      let asked = (on_host-ok service (service_state ports.run unit) c2 c3 state e3).0 in
      expect_inactive-Stopped state c2.host c3 d asked k3
  stop_if_active-Stopped progress inactive s c d e h = expect_inactive-Stopped inactive s c d e h
  stop_if_active-Stopped progress failed s c d e h = cc
  stop_if_active-Stopped progress (transitioning t) s c d e h = cc
  stop_if_active-Stopped progress (unknown t) s c d e h = cc

  -- When the service is said to be stopped, systemd's last answer was that it is inactive.
  pub ensure_klipper_stopped-Stopped :
      (progress : UpdateProgress → S → S) (c d : Coordinator S)
      → ensure_klipper_stopped ports unit progress c ≡ (ok tt, d)
      → Stopped d.host
  unfolding ensure_klipper_stopped observe
  ensure_klipper_stopped-Stopped progress c d h =
      let (state, c1, e1, k1) = bind-eq-ok (state_now ports unit) _ c d tt h in
      let (u, c2, e2, k2) =
        bind-eq-ok (observe ports unit state) (λ u. stop_if_active ports unit progress state) c1 d
          tt k1 in
      let asked = (on_host-ok service (service_state ports.run unit) c c1 state e1).0 in
      let same : c1.host ≡ c2.host = ap (λ x. x.1.host) e2 in
      stop_if_active-Stopped progress state c.host c2 d (asked ∙ ap (λ t. (ok state, t)) same) k2

  -- What `flash_prebuilt` comes to.
  pub data PrebuiltOutcome (approved : ApprovedBuild) (request : FlashRequest Image Links)
      (options : Options) (progress : UpdateProgress → S → S) (c : Coordinator S)
      (r : Result (FlashCoordinatorError CE BE IE F) FlashResult × Coordinator S) : Type 0 where
    -- The request is for another MCU: nothing has happened.
    another_mcu :
        is_for request.destination approved.pending.prepared ≡ false
        → r ≡ (
          err (
              coordinator (
                request_for_another_mcu request.destination.name
                  approved.pending.prepared.target_name)),
          c,
        )
        → PrebuiltOutcome approved request options progress c r
    -- Klipper could not be stopped: no backend was called.
    not_stopped :
        (e : CoordinatorError CE BE IE) {d : Coordinator S}
        → ensure_klipper_stopped ports unit progress c ≡ (err e, d)
        → r ≡ (err (coordinator e), d)
        → PrebuiltOutcome approved request options progress c r
    -- The MCU's own backend was called once, with Klipper stopped, for the MCU of the request.
    sent :
        {d : Coordinator S}
        → request.destination.name ≡ approved.pending.prepared.target_name
        → request.destination.model ≡ approved.pending.prepared.mcu
        → request.destination.transport ≡ approved.pending.prepared.transport
        → Stopped d.host
        → r
          ≡ on_host flash_failed
              (send ports unit approved.pending.prepared request.protocol options progress)
              d
        → PrebuiltOutcome approved request options progress c r

  -- Prebuilt firmware is refused before anything is done if it is for another MCU than the approved
  -- one; if Klipper cannot be stopped no backend is called; and otherwise its backend is called
  -- once, for an MCU of the request's name, model and transport, right after systemd answered
  -- that Klipper is inactive.
  pub flash_prebuilt-PrebuiltOutcome :
      (approved : ApprovedBuild) (request : FlashRequest Image Links) (options : Options)
      (progress : UpdateProgress → S → S) (c : Coordinator S)
      → PrebuiltOutcome approved request options progress c
          (flash_prebuilt ports unit approved request options progress c)
  unfolding flash_prebuilt
  flash_prebuilt-PrebuiltOutcome approved request options progress c =
      elim (Bool-cases (is_for request.destination approved.pending.prepared)) [
        | inr other ↦ rw other (another_mcu other refl)
        | inl same ↦
            let (n, m, t) = (is_for_iff request.destination approved.pending.prepared).0 same in
            let d = (ensure_klipper_stopped ports unit progress c).1 in
            elim (Result-cases (ensure_klipper_stopped ports unit progress c).0) [
              | inr (x, e) ↦ rw (same, e) (not_stopped x (λ i. (e i, d)) refl)
              | inl (u, e) ↦
                  rw (same, e)
                    (sent n m t (ensure_klipper_stopped-Stopped progress c d (λ i. (e i, d))) refl)
            ]
      ]
