-- ===== src/Prepare/Destined.antt =====
-- A build is prepared from what the selected MCU reports, and a request is for one MCU.
use aldis.Prelude.{
  Bool-cases, sym, Bool, true, List, [], ◌∷◌, ◌≡◌, ◌↔◌, arith, bytes_eq, bytes_eq_iff, All, Option,
  none, some, Option-cases, ok, Result-cases, inl, inr,
}
use aldis.Prelude.Text.{Text, split}
use aldis.Kconfig.{validate}
use aldis.Kconfig.Admissible.{IsAdmissible}
use aldis.Kconfig.Harmless.{validate-IsAdmissible}
use aldis.Fleet.{Mcu, McuTransport, serial, can, transport_eq, find_mcu}
use aldis.Prepare.{PreparedBuild, PathBuf, prepare_build, Destination, transports_eq, is_for}

-- `mcu` is one of these.
pub data IsAmong (mcu : Mcu) : List Mcu → Type 0 where
  here : {rest : List Mcu} → IsAmong mcu (mcu ∷ rest)
  later : {other : Mcu} {rest : List Mcu} → IsAmong mcu rest → IsAmong mcu (other ∷ rest)

find_mcu-IsAmong :
    (name : Text) (mcus : List Mcu) (mcu : Mcu)
    → find_mcu name mcus ≡ some mcu
    → IsAmong mcu mcus × (mcu.name ≡ name)
unfolding find_mcu
find_mcu-IsAmong name [] mcu h = cc
find_mcu-IsAmong name (m ∷ mcus) mcu h = elim (Bool-cases (bytes_eq m.name name)) [
  | inl yes' ↦
      let same : m ≡ mcu = ground (arith, rw (yes', find_mcu) at h) in
      rw (sym same) (here, (bytes_eq_iff m.name name).0 yes')
  | inr no' ↦
      let (among, named) = find_mcu-IsAmong name mcus mcu (rw (no', find_mcu) at h) in
      (later among, named)
]

-- What a prepared build is made of.
pub record IsPreparedFrom (mcus : List Mcu) (target_name : Text) (prepared : PreparedBuild)
    : Type 0 where
  pub mcu : Mcu
  pub among : IsAmong mcu mcus
  pub named : mcu.name ≡ target_name
  pub target : prepared.target_name ≡ target_name
  pub model : prepared.mcu ≡ mcu.mcu
  pub transport : prepared.transport ≡ mcu.transport
  pub kconfig : prepared.request.kconfig ≡ mcu.kconfig
  pub admissible : All IsAdmissible (split b'\n' prepared.request.kconfig)

-- A build that is prepared is for an MCU of the inventory that has the given name: it has the model,
-- the transport and the Kconfig that this MCU reports, and every line of that Kconfig is a comment
-- without a backslash, a line of spaces, or an assignment of an admissible value to one of Kconfig's
-- symbols.
pub prepare_build-IsPreparedFrom :
    (mcus : List Mcu) (target_name : Text) (config_path artifact_path : PathBuf) (clean : Bool)
    (prepared : PreparedBuild)
    → prepare_build mcus target_name config_path artifact_path clean ≡ ok prepared
    → IsPreparedFrom mcus target_name prepared
unfolding prepare_build
prepare_build-IsPreparedFrom mcus target_name config_path artifact_path clean prepared h =
    elim (Option-cases (find_mcu target_name mcus)) [
      | inl none' ↦ let h' = rw (none', prepare_build) at h in cc (h')
      | inr (mcu, found) ↦ elim (Result-cases (validate mcu.kconfig)) [
        | inr (source, bad) ↦ let h' = rw (found, prepare_build, bad) at h in cc (h')
        | inl (u, good) ↦
            let same = rw (found, prepare_build, good) at h in
            let (among, named) = find_mcu-IsAmong target_name mcus mcu found in
            let kconfig' : mcu.kconfig ≡ prepared.request.kconfig = cc (same) in
            record {
              mcu = mcu;
              among = among;
              named = named;
              target = cc (same);
              model = cc (same);
              transport = cc (same);
              kconfig = cc (same);
              admissible = rw (sym kconfig') ((validate-IsAdmissible mcu.kconfig good).0);
            }
      ]
    ]

transport_eq_iff : (a b : McuTransport) → (transport_eq a b ≡ true) ↔ (a ≡ b)
unfolding transport_eq
transport_eq_iff (serial a) (serial b) = ground (arith, bytes_eq_iff a b)
transport_eq_iff (can a u) (can b v) = ground (arith, bytes_eq_iff a b)
transport_eq_iff (serial a) (can b v) = ground arith
transport_eq_iff (can a u) (serial b) = ground arith

transports_eq_iff : (a b : Option McuTransport) → (transports_eq a b ≡ true) ↔ (a ≡ b)
unfolding transports_eq
transports_eq_iff none none = ground arith
transports_eq_iff (some a) none = ground arith
transports_eq_iff none (some b) = ground arith
transports_eq_iff (some a) (some b) = ground (arith, transport_eq_iff a b)

-- A destination is a prepared build's exactly when name, model and transport are the same.
pub is_for_iff :
    (destination : Destination) (prepared : PreparedBuild)
    → (is_for destination prepared ≡ true) ↔ (
        (destination.name ≡ prepared.target_name)
        × (destination.model ≡ prepared.mcu)
        × (destination.transport ≡ prepared.transport))
unfolding is_for
is_for_iff destination prepared = ground (
  arith,
  bytes_eq_iff destination.name prepared.target_name,
  bytes_eq_iff destination.model prepared.mcu,
  transports_eq_iff destination.transport prepared.transport,
)
