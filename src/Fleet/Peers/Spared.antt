-- ===== src/Fleet/Peers/Spared.antt =====
-- No other printer is disturbed when a bridge is flashed (src/fleet/peer.rs).
use aldis.Prelude.{
  ◌&&◌, Bool, true, false, Bool-cases, Option-cases, List, [], ◌∷◌, ◌++◌, bytes_eq_iff, All, Option,
  none, some, ok, ◌≡◌, ◌≢◌, refl, ap, ◌⊎◌, inl, inr, arith,
}
use aldis.Prelude.Iter.{keep}
use aldis.Prelude.Text.{Text, any}
use aldis.Fleet.{Mcu, is_usb_can_bridge}
use aldis.Fleet.Peers.{
  McuInventory, PeerState, Bus, interfaces, unknown_bus, among, interface_of, add_interface, bus_of,
  bus_of_some, bridge_bus, peer_interfaces, is_shared, is_idle_peer, judge_known, judge_running,
  judge_peer, judge_peers, check_bridge,
}
use aldis.Update.{
  KlippyState, ready, startup, klippy_error, shutdown, disconnected, PrintState, is_idle,
}

-- A printer that does nothing, or says that it does not print.
abbrev pub IsResting : KlippyState → Option PrintState → Type 0
IsResting klippy state =
    (klippy ≡ klippy_error)
    ⊎ ((klippy ≡ shutdown) ⊎ ((known : PrintState) × (state ≡ some known) × (is_idle known ≡ true)))

-- No MCU of a printer is on the bridge's interface, or on any where that is not known.
abbrev pub IsApart : Option Text → McuInventory → Type 0
IsApart none found = peer_interfaces found ≡ []
IsApart (some interface) found = All (λ used. used ≢ interface) (peer_interfaces found)

abbrev pub IsSpared : Mcu → PeerState → Type 0
IsSpared mcu peer =
    (peer.klippy ≡ some disconnected)
    ⊎ ((klippy : KlippyState) × (found : McuInventory) × (peer.klippy ≡ some klippy)
        × (klippy ≢ startup)
        × (peer.inventory ≡ some found)
        × (IsApart (interface_of mcu.transport) found ⊎ IsResting klippy peer.print_state))

-- A bus has a bridge's interface, or is not known.
abbrev Covers : Bus → Option Text → Type 0
Covers unknown_bus interface = Unit {0}
Covers (interfaces names) none = ⊥
Covers (interfaces names) (some interface) = among names interface ≡ true

add_interface-Covers :
    (other own : Option Text) (bus : Bus) → Covers bus own → Covers (add_interface other bus) own
unfolding any
add_interface-Covers none own bus h = tt
add_interface-Covers (some other) own unknown_bus h = tt
add_interface-Covers (some other) none (interfaces names) h = absurd h
add_interface-Covers (some other) (some own) (interfaces names) h = ground arith

own-Covers : (own : Option Text) (bus : Bus) → Covers (add_interface own bus) own
unfolding any
own-Covers none bus = tt
own-Covers (some own) unknown_bus = tt
own-Covers (some own) (interfaces names) = rw ((bytes_eq_iff own own).1 refl) refl

module _ (test : Mcu → Bool) (mcu : Mcu) (after : List Mcu) (own : test mcu ≡ true) where
  bus_of-Covers :
      (before : List Mcu)
      → Covers (bus_of (keep test (before ++ (mcu ∷ after)))) (interface_of mcu.transport)
  unfolding bus_of keep
  bus_of-Covers [] =
      rw (own, keep, bus_of) (own-Covers (interface_of mcu.transport) (bus_of (keep test after)))
  bus_of-Covers (x ∷ before) = elim (Bool-cases (test x)) [
    | inl yes' ↦
        rw (yes', keep, bus_of)
          (add_interface-Covers (interface_of x.transport) (interface_of mcu.transport)
            (bus_of (keep test (before ++ (mcu ∷ after)))) (bus_of-Covers before))
    | inr no' ↦ rw (no', keep, bus_of) (bus_of-Covers before)
  ]

  bus_of_some-keep :
      (before : List Mcu)
      → bus_of_some (keep test (before ++ (mcu ∷ after)))
        ≡ some (bus_of (keep test (before ++ (mcu ∷ after))))
  unfolding bus_of keep
  bus_of_some-keep [] = rw (own, keep, bus_of) refl
  bus_of_some-keep (x ∷ before) = elim (Bool-cases (test x)) [
    | inl yes' ↦ rw (yes', keep, bus_of) refl
    | inr no' ↦ rw (no', keep, bus_of) (bus_of_some-keep before)
  ]

any-none : (names : List Text) → any (λ name. true) names ≡ false → names ≡ []
unfolding any
any-none [] h = refl
any-none (name ∷ names) h = cc h

any-All :
    (test : Text → Bool) (names : List Text)
    → any test names ≡ false
    → All (λ name. test name ≡ false) names
unfolding any
any-All test [] h = tt
any-All test (name ∷ names) h = (ground arith, any-All test names (ground arith))

apart :
    (names : List Text) (own : Text) (used : List Text)
    → among names own ≡ true
    → All (λ name. among names name ≡ false) used
    → All (λ name. name ≢ own) used
apart names own [] h k = tt
apart names own (name ∷ used) h k =
    ((λ e. cc (ap (among names) e, h, k.0)), apart names own used h k.1)

IsApart-unshared :
    (own : Option Text) (bus : Bus) (found : McuInventory)
    → Covers bus own
    → is_shared bus (peer_interfaces found) ≡ false
    → IsApart own found
IsApart-unshared none unknown_bus found h k = any-none (peer_interfaces found) k
IsApart-unshared (some own) unknown_bus found h k = rw (any-none (peer_interfaces found) k) tt
IsApart-unshared none (interfaces names) found h k = absurd h
IsApart-unshared (some own) (interfaces names) found h k =
    apart names own (peer_interfaces found) h (any-All (among names) (peer_interfaces found) k)

resting :
    (klippy : KlippyState) (state : Option PrintState)
    → is_idle_peer klippy state ≡ true
    → IsResting klippy state
resting klippy_error state h = inl refl
resting shutdown state h = inr (inl refl)
resting ready none h = cc h
resting ready (some known) h = inr (inr (known, refl, h))
resting startup none h = cc h
resting startup (some known) h = inr (inr (known, refl, h))
resting disconnected none h = cc h
resting disconnected (some known) h = inr (inr (known, refl, h))

module _ (mcu : Mcu) (bus : Bus) (h : Covers bus (interface_of mcu.transport)) where
  judge_running-IsSpared :
      (peer : PeerState) (klippy : KlippyState) (found : Option McuInventory)
      → peer.klippy ≡ some klippy
      → klippy ≢ startup
      → peer.inventory ≡ found
      → judge_running bus peer klippy found ≡ none
      → IsSpared mcu peer
  unfolding judge_running judge_known
  judge_running-IsSpared peer klippy none k up i e = absurd (cc e)
  judge_running-IsSpared peer klippy (some found) k up i e =
      elim (Bool-cases (is_shared bus (peer_interfaces found))) [
        | inr alone ↦ inr (
          klippy,
          found,
          k,
          up,
          i,
          inl (IsApart-unshared (interface_of mcu.transport) bus found h alone),
        )
        | inl shared ↦ elim (Bool-cases (is_idle_peer klippy peer.print_state)) [
          | inl idle ↦ inr (klippy, found, k, up, i, inr (resting klippy peer.print_state idle))
          | inr working ↦ absurd (cc (rw (shared, working) at e))
        ]
      ]

  judge_peer-IsSpared :
      (peer : PeerState) (klippy : Option KlippyState)
      → peer.klippy ≡ klippy
      → judge_peer bus peer klippy ≡ none
      → IsSpared mcu peer
  unfolding judge_peer
  judge_peer-IsSpared peer none k e = absurd (cc e)
  judge_peer-IsSpared peer (some disconnected) k e = inl k
  judge_peer-IsSpared peer (some startup) k e = absurd (cc e)
  judge_peer-IsSpared peer (some ready) k e =
      judge_running-IsSpared peer ready peer.inventory k (λ x. cc x) refl e
  judge_peer-IsSpared peer (some klippy_error) k e =
      judge_running-IsSpared peer klippy_error peer.inventory k (λ x. cc x) refl e
  judge_peer-IsSpared peer (some shutdown) k e =
      judge_running-IsSpared peer shutdown peer.inventory k (λ x. cc x) refl e

  judge_peers-IsSpared :
      (peers : List PeerState) → judge_peers bus peers ≡ ok tt → All (IsSpared mcu) peers
  unfolding judge_peers
  judge_peers-IsSpared [] e = tt
  judge_peers-IsSpared (peer ∷ peers) e = elim (Option-cases (judge_peer bus peer peer.klippy)) [
    | inl allowed ↦ (
      judge_peer-IsSpared peer peer.klippy refl allowed,
      judge_peers-IsSpared peers (rw (judge_peers, allowed) at e),
    )
    | inr (refusal, refused) ↦ absurd (cc (rw (judge_peers, refused) at e))
  ]

-- When the flash of targets, one of which is a USB-CAN bridge, is allowed, then every other printer
-- is disconnected; or its state and its MCUs are known, it is not starting up, and none of its MCUs
-- is on the bridge's interface (on any interface, where the bridge's is not known), or it is
-- stopped or says that it does not print.
pub check_bridge-spares :
    (inventory : McuInventory) (targets : List Text) (peers : List PeerState)
    (before after : List Mcu) (mcu : Mcu)
    → inventory.mcus ≡ before ++ (mcu ∷ after)
    → among targets mcu.name ≡ true
    → is_usb_can_bridge mcu ≡ true
    → check_bridge inventory targets peers ≡ ok tt
    → All (IsSpared mcu) peers
unfolding check_bridge bridge_bus
check_bridge-spares inventory targets peers before after mcu listed target' bridge e =
    let test : Mcu → Bool = λ m. among targets m.name && is_usb_can_bridge m in
    let own : test mcu ≡ true = rw (target', bridge) refl in
    let bus = bus_of (keep test (before ++ (mcu ∷ after))) in
    let known : bus_of_some (keep test inventory.mcus) ≡ some bus =
      rw listed (bus_of_some-keep test mcu after own before) in
    judge_peers-IsSpared mcu bus (bus_of-Covers test mcu after own before) peers
      (rw (check_bridge, bridge_bus, known) at e)
