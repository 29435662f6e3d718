-- ===== src/Agent/Service/Accepted.antt =====
-- What an accepted request flashes: MCUs to which the assessment offers an update
-- (src/agent/service.rs, src/agent/api.rs).
mod Examples
use mathlib.Core.Path.{subst}
use aldis.Prelude.{
  ◌&&◌, not, Bool, true, false, if◌then◌else◌, Bool-cases, Option-cases, Result-cases, List, [],
  ◌∷◌, ◌++◌, map, bytes_eq, bytes_eq_iff, All, All-append, Option, none, some, Result, ok, err, ◌≡◌,
  ◌≢◌, refl, sym, ap, ◌∙◌, ◌⊎◌, inl, inr, arith,
}
use aldis.Prelude.Among.{IsAmong, find-among, All-find, All-among, All-map, All-filter_map}
use aldis.Prelude.Iter.{keep, keep-All, All-keep, find, filter_map}
use aldis.Prelude.Strings.{eq_ignore_ascii_case}
use aldis.Prelude.Text.{Text, any}
use aldis.Eligibility.{Semver}
use aldis.Fleet.{Mcu, is_usb_can_bridge, flash_order}
use aldis.Fleet.Peers.{UnreportedMcu, McuInventory, among, check_bridge, BridgeRefusal}
use aldis.Fleet.Peers.Spared.{IsSpared, check_bridge-spares}
use aldis.Agent.{
  Snapshot, McuState, update_available, McuEntry, StatusBody, Action, display_name, blocker,
  state_of_mcu, is_update_available, refusal_in, bridge_refusal, is_none, offered, entry_of,
  unreported_entry, entries_of, assess,
}
use aldis.Agent.Service.{
  UpdateRequest, these, every_mcu, ApiError, can_update, named, if_updatable, entries_for,
  object_of, once, targets_of, for_entries, accept,
}
use aldis.Agent.Service.Once.{IsOnce, once-IsOnce, All-once, All-flash_order, flash_order-IsOnce}
use aldis.Agent.Service.Chosen.{entries_for-All, accept-ok, targets_of-ok, All-both}

is_update_available-state :
    (state : McuState) → is_update_available state ≡ true → state ≡ update_available
is_update_available-state update_available h = refl
is_update_available-state _ h = absurd (cc h)

module _ {V : Type 0} (semver : Semver V) (snapshot : Snapshot V) (found : McuInventory) where
  -- The bridge would not disturb another printer.
  abbrev pub IsHarmless : Mcu → Type 0
  IsHarmless mcu = (is_usb_can_bridge mcu ≡ false) ⊎ All (IsSpared mcu) snapshot.peers

  abbrev pub IsOffered : Mcu → Type 0
  IsOffered mcu =
      IsAmong mcu found.mcus
      × (state_of_mcu semver snapshot mcu ≡ update_available)
      × (blocker snapshot.host ≡ none)
      × IsHarmless mcu

  -- An entry has no action, or is that of an MCU to which an update is offered.
  abbrev IsHonest : McuEntry → Type 0
  IsHonest entry =
      (can_update entry ≡ false)
      ⊎ ((mcu : Mcu) × (entry.name ≡ display_name mcu.name) × IsOffered mcu)

  harmless :
      (mcu : Mcu)
      → IsAmong mcu found.mcus
      → bridge_refusal semver snapshot found mcu ≡ none
      → IsHarmless mcu
  unfolding bridge_refusal any
  harmless mcu (before, after, listed) e = elim (Bool-cases (is_usb_can_bridge mcu)) [
    | inr ordinary ↦ inl ordinary
    | inl bridge ↦
        let own : among (mcu.name ∷ []) mcu.name ≡ true =
          rw ((bytes_eq_iff mcu.name mcu.name).1 refl) refl in
        elim (Result-cases (check_bridge found (mcu.name ∷ []) snapshot.peers)) [
          | inl (u, allowed) ↦ inr (
              check_bridge-spares found (mcu.name ∷ []) snapshot.peers before after mcu listed own
                bridge allowed)
          | inr (refusal, refused) ↦ absurd (cc (rw (bridge_refusal, bridge, refused) at e))
        ]
  ]

  entry_of-IsHonest :
      (mcu : Mcu) → IsAmong mcu found.mcus → IsHonest (entry_of semver snapshot found mcu)
  unfolding entry_of any
  entry_of-IsHonest mcu listed =
      elim (Bool-cases (is_update_available (state_of_mcu semver snapshot mcu))) [
        | inr no' ↦ inl (rw (entry_of, no') refl)
        | inl yes' ↦ elim (Option-cases (blocker snapshot.host)) [
          | inr (reason, blocked) ↦ inl (rw (entry_of, yes', blocked) refl)
          | inl clear ↦ elim (Option-cases (bridge_refusal semver snapshot found mcu)) [
            | inr (refusal, refused) ↦ inl (rw (entry_of, yes', clear, refused) refl)
            | inl allowed ↦ inr (
              mcu,
              refl,
              (
                listed,
                is_update_available-state (state_of_mcu semver snapshot mcu) yes',
                clear,
                harmless mcu listed allowed,
              ),
            )
          ]
        ]
      ]

  entries-IsHonest : All IsHonest (entries_of semver snapshot (some found))
  unfolding unreported_entry any entries_of
  entries-IsHonest =
      All-append IsHonest (map (entry_of semver snapshot found) found.mcus)
        (map unreported_entry found.unreported)
        (All-map IsHonest (λ mcu. IsAmong mcu found.mcus) (entry_of semver snapshot found)
          found.mcus entry_of-IsHonest
          (All-among (λ mcu. IsAmong mcu found.mcus) found.mcus (λ mcu h. h)))
        (All-map IsHonest (λ mcu. Unit {0}) unreported_entry found.unreported (λ mcu h. inl refl)
          (All-among (λ mcu. Unit {0}) found.unreported (λ mcu h. tt)))

  -- The target of an entry is an MCU with the entry's name.
  abbrev pub IsTarget : Text → Type 0
  IsTarget target' = (mcu : Mcu) × (mcu.name ≡ target') × IsOffered mcu

  object_of-IsTarget :
      ((a b : Mcu)
        → IsAmong a found.mcus
        → IsAmong b found.mcus
        → display_name a.name ≡ display_name b.name
        → a ≡ b)
      → (entry : McuEntry) (target' : Text) → IsHonest entry × (can_update entry ≡ true)
      → object_of found.mcus entry ≡ some target'
      → IsTarget target'
  unfolding object_of
  object_of-IsTarget distinct entry target' (inl idle, able) e = absurd (cc (idle, able))
  object_of-IsTarget distinct entry target' (inr (own, named', offer), able) e =
      let test : Mcu → Bool = λ mcu. bytes_eq (display_name mcu.name) entry.name in
      elim (Option-cases (find test found.mcus)) [
        | inl missing ↦ absurd (cc (rw (object_of, missing) at e))
        | inr (mcu, there) ↦
            let (listed, alike) = find-among test found.mcus mcu there in
            let shown = (bytes_eq_iff (display_name mcu.name) entry.name).0 alike in
            let same : own ≡ mcu = distinct own mcu offer.0 listed (sym named' ∙ sym shown) in
            (own, ap (λ m. m.name) same ∙ cc (rw (object_of, there) at e), offer)
      ]

  -- Where no two MCUs of the inventory are displayed by one name: every target of an accepted
  -- request is the name of an MCU of the inventory for which an update is available, nothing blocks
  -- an update of the printer, and if the MCU is a USB-CAN bridge then flashing it alone spares every
  -- other printer; and no two targets have one name, whatever its case.
  pub accept-IsTarget :
      (request : UpdateRequest) (targets : List Text)
      → snapshot.inventory ≡ some found
      → ((a b : Mcu)
          → IsAmong a found.mcus
          → IsAmong b found.mcus
          → display_name a.name ≡ display_name b.name
          → a ≡ b)
      → accept (assess semver snapshot) snapshot.inventory request ≡ ok targets
      → All IsTarget targets × IsOnce targets
  unfolding assess
  accept-IsTarget request targets known distinct e =
      let body = assess semver snapshot in
      let honest : All IsHonest body.mcus =
        subst (λ i. All IsHonest (entries_of semver snapshot i)) (sym known) entries-IsHonest in
      let accepted = subst (λ i. accept body i request ≡ ok targets) known e in
      let (entries, chosen, ordered) = accept-ok body found request targets accepted in
      let (h, able) = entries_for-All IsHonest body.mcus request entries honest chosen in
      let objects = filter_map (object_of found.mcus) entries in
      let all' : All IsTarget objects =
        All-filter_map IsTarget (λ entry. IsHonest entry × (can_update entry ≡ true))
          (object_of found.mcus) entries (object_of-IsTarget distinct)
          (All-both IsHonest (λ entry. can_update entry ≡ true) entries h able) in
      let same = targets_of-ok found entries targets ordered in
      subst (λ names. All IsTarget names × IsOnce names) same
        (
          All-flash_order IsTarget found.mcus (once [] objects) (All-once IsTarget [] objects all'),
          flash_order-IsOnce found.mcus (once [] objects) (once-IsOnce [] objects),
        )
