-- ===== src/Selection/Upgrades.antt =====
-- No selection offers an MCU whose firmware is newer than its target.
use aldis.Prelude.{
  ◌||◌, not, Bool, true, false, if◌then◌else◌, Bool-cases, Option-cases, some, ◌≡◌, ◌≢◌, refl, inl,
  inr, arith,
}
use aldis.Fleet.{Mcu}
use aldis.Eligibility.{Semver, RevisionStatus, current, update_required, newer, indeterminate}
use aldis.Prebuilt
use aldis.Prebuilt.{Running, Target}
use aldis.Selection.{
  Eligibility, eligible, prebuilt, externally_managed, unsupported, unsupported_mcu, TargetVersions,
  UpdateSelection, required, position_of, revision_of, downgrades, downgrade_of, has_target, wants,
  is_newer, classify_mcu, assess_mcu, is_selected,
}

is_newer-newer : (r : RevisionStatus) → is_newer r ≡ false → r ≢ newer
is_newer-newer newer h e = cc
is_newer-newer current h e = cc
is_newer-newer update_required h e = cc
is_newer-newer indeterminate h e = cc

allowed :
    (t d w : Bool)
    → (if not t || d then false else w) ≡ true
    → (t ≡ true) × ((d ≡ false) × (w ≡ true))
allowed true false w h = (refl, (refl, h))
allowed true true w h = cc
allowed false d w h = cc

module _ {V : Type 0} (semver : Semver V) (mcu : Mcu) (versions : TargetVersions V)
    (selection : UpdateSelection) where
  wants-required :
      (r : RevisionStatus)
      → wants semver selection (some r) ≡ true
      → selection ≡ required
      → r ≡ update_required
  wants-required r h e = ground (arith, rw e at h)

  -- Only an MCU that is eligible for a build of Klipper, and is compared with the checkout, or runs a
  -- vendor's firmware that has a target, and is compared with that, is offered.
  abbrev pub IsCompared : Eligibility V → RevisionStatus → Type 0
  IsCompared eligible r = r ≡ position_of semver mcu.version versions.checkout
  IsCompared (prebuilt running) r =
      (t : Target V) × ((Prebuilt.target_of semver versions.prebuilt_targets running mcu.name
          ≡ some t)
        × (r ≡ Prebuilt.compare semver versions.prebuilt_targets running mcu.name))
  IsCompared (externally_managed app) r = ⊥
  IsCompared (unsupported reason) r = ⊥
  IsCompared (unsupported_mcu family) r = ⊥

  abbrev IsOffered : Eligibility V → Type 0
  IsOffered e =
      (r : RevisionStatus) × ((revision_of semver mcu versions e ≡ some r)
        × ((r ≢ newer) × ((selection ≡ required → r ≡ update_required) × IsCompared e r)))

  from_status :
      (r : RevisionStatus)
      → (if is_newer r then false else wants semver selection (some r)) ≡ true
      → (r ≢ newer) × (selection ≡ required → r ≡ update_required)
  from_status r h = elim (Bool-cases (is_newer r)) [
    | inl is ↦ let h' = rw is at h in cc (h')
    | inr other ↦ (is_newer-newer r other, wants-required r (rw other at h))
  ]

  -- A newer firmware is downgraded by any target.
  downgrade-newer :
      (running : Running V) (t : Target V)
      → is_newer (Prebuilt.compare semver versions.prebuilt_targets running mcu.name) ≡ true
      → Prebuilt.target_of semver versions.prebuilt_targets running mcu.name ≡ some t
      → Prebuilt.downgrade semver versions.prebuilt_targets running mcu.name ≡ some t
  unfolding Prebuilt.downgrade
  downgrade-newer running t h e = rw (h, Prebuilt.downgrade, e) refl

  prebuilt-IsUpgrade :
      (running : Running V)
      → (if not (has_target semver mcu versions (prebuilt running))
            || downgrades semver mcu versions (prebuilt running)
          then false
          else wants semver selection (revision_of semver mcu versions (prebuilt running)))
        ≡ true
      → IsOffered (prebuilt running)
  prebuilt-IsUpgrade running h =
      let r = Prebuilt.compare semver versions.prebuilt_targets running mcu.name in
      let (some_target, (up, wanted)) =
        allowed (has_target semver mcu versions (prebuilt running))
          (downgrades semver mcu versions (prebuilt running)) (wants semver selection (some r)) h in
      elim (Option-cases (Prebuilt.target_of semver versions.prebuilt_targets running mcu.name)) [
        | inl none' ↦ let bad = rw (has_target, none') at some_target in cc (bad)
        | inr (t, some') ↦ elim (Bool-cases (is_newer r)) [
          | inl is ↦ let bad = rw (downgrades, downgrade-newer running t is some') at up in cc (bad)
          | inr other ↦
              (r, (refl, (is_newer-newer r other, (wants-required r wanted, (t, (some', refl))))))
        ]
      ]

  upgrade :
      (e : Eligibility V)
      → (if not (has_target semver mcu versions e) || downgrades semver mcu versions e
          then false
          else wants semver selection (revision_of semver mcu versions e))
        ≡ true
      → IsOffered e
  upgrade eligible h =
      let r = position_of semver mcu.version versions.checkout in
      let (up, wanted) = from_status r h in (r, (refl, (up, (wanted, refl))))
  upgrade (prebuilt running) h = prebuilt-IsUpgrade running h
  upgrade (externally_managed app) h = cc
  upgrade (unsupported reason) h = cc
  upgrade (unsupported_mcu family) h = cc

  -- An MCU that any selection offers either is eligible for a build of Klipper, and its status is what
  -- comparing its version with the checkout comes to, or runs a vendor's firmware that has a target,
  -- and its status is what comparing with that comes to. The status is not that it is newer; and where
  -- the selection is of required updates, it is that an update is required.
  pub is_selected-upgrades :
      is_selected semver mcu versions selection ≡ true
      → (r : RevisionStatus) × (((assess_mcu semver mcu versions).revision ≡ some r)
          × ((r ≢ newer)
              × ((selection ≡ required → r ≡ update_required)
                  × IsCompared (assess_mcu semver mcu versions).eligibility r)))
  unfolding is_selected assess_mcu downgrade_of
  is_selected-upgrades h = upgrade (classify_mcu semver mcu) h
