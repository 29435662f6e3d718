-- ===== src/Prepare.antt =====
-- A selected MCU and its build request (src/prepare.rs), the request that flashes prebuilt
-- firmware (src/flash/request.rs) and the paths of a run (src/workspace.rs). A path is the list of
-- its components; making directories is a parameter that acts on the state of the host.
pub mod Destined
pub mod Paths
mod Examples
use aldis.Prelude.{
  ℕ, ◌+◌, ◌/◌, ◌%◌, ◌==◌, ◌&&◌, ltb, Bool, true, false, if◌then◌else◌, List, [], ◌∷◌, ◌++◌, Bytes,
  bytes_eq, Option, none, some, Result, ok, err, map_err, and_then, Exec, ◌>>=◌, ◌>>◌, pure, raise,
}
use aldis.Prelude.Text.{Text, codes, is_empty}
use aldis.Kconfig.{InvalidKconfig, validate}
use aldis.Fleet.{Mcu, McuTransport, transport_eq, find_mcu}

abbrev pub PathBuf : Type 0
PathBuf = List Text

pub record BuildRequest : Type 0 where
  pub kconfig : Text
  pub config_path : PathBuf
  pub artifact_path : PathBuf
  pub clean : Bool

pub record PreparedBuild : Type 0 where
  pub target_name : Text
  pub mcu : Text
  pub transport : Option McuTransport
  pub request : BuildRequest

pub data PreparationError : Type 0 where
  target_not_discovered : Text → PreparationError
  untrusted_kconfig : Text → InvalidKconfig → PreparationError

unfoldable pub prepare_build :
    List Mcu → Text → PathBuf → PathBuf → Bool → Result PreparationError PreparedBuild
prepare_build mcus target_name config_path artifact_path clean = elim (find_mcu target_name mcus) [
  | none ↦ err (target_not_discovered target_name)
  | some mcu ↦ elim (validate mcu.kconfig) [
    | err source ↦ err (untrusted_kconfig target_name source)
    | ok _ ↦ ok (record {
      target_name = target_name;
      mcu = mcu.mcu;
      transport = mcu.transport;
      request = record {
        kconfig = mcu.kconfig;
        config_path = config_path;
        artifact_path = artifact_path;
        clean = clean;
      };
    })
  ]
]

pub data Vendor : Type 0 where
  foci beacon cartographer : Vendor

pub record Destination : Type 0 where
  pub name : Text
  pub model : Text
  pub transport : Option McuTransport

abbrev pub destination_of : Mcu → Destination
destination_of mcu = record { name = mcu.name; model = mcu.mcu; transport = mcu.transport }

unfoldable pub transports_eq : Option McuTransport → Option McuTransport → Bool
unfolding transport_eq
transports_eq none none = true
transports_eq (some a) (some b) = transport_eq a b
transports_eq _ _ = false

-- `Destination::is`
unfoldable pub is_for : Destination → PreparedBuild → Bool
unfolding transports_eq
is_for destination prepared =
    bytes_eq destination.name prepared.target_name
    && bytes_eq destination.model prepared.mcu
    && transports_eq destination.transport prepared.transport

-- The image of a Beacon and the links of a Katapult are what their modules make of them.
pub data Protocol (Image Links : Type 0) : Type 0 where
  -- image, application start, links
  katapult : Bytes → ℕ → Links → Protocol Image Links
  beacon_dfu : Image → Protocol Image Links

pub record FlashRequest (Image Links : Type 0) : Type 0 where
  pub vendor : Vendor
  pub destination : Destination
  pub protocol : Protocol Image Links

module _ {Image Links : Type 0} where
  -- `FlashRequest::katapult`
  abbrev pub katapult_request : Vendor → Mcu → Bytes → ℕ → Links → FlashRequest Image Links
  katapult_request vendor mcu image start links = record {
    vendor = vendor;
    destination = destination_of mcu;
    protocol = katapult image start links;
  }

  -- `FlashRequest::beacon`
  abbrev pub beacon_request : Mcu → Image → FlashRequest Image Links
  beacon_request mcu image = record {
    vendor = beacon;
    destination = destination_of mcu;
    protocol = beacon_dfu image;
  }

pub data WorkspaceError (IE : Type 0) : Type 0 where
  io : IE → WorkspaceError IE
  empty_target_name : WorkspaceError IE

pub record WorkspaceBuildPaths : Type 0 where
  pub config_path : PathBuf
  pub artifact_path : PathBuf

-- `{:x}` of a number below 16
abbrev pub hex_digit : ℕ → ℕ
hex_digit n = if ltb n 10 then b'0' + n else 87 + n

-- `{byte:02x}` of every byte
unfoldable pub target_id : Text → Text
target_id [] = []
target_id (byte ∷ rest) = hex_digit (byte / 16) ∷ hex_digit (byte % 16) ∷ target_id rest

module _ {S IE : Type 0} (create_dir_all : PathBuf → Exec S IE (Unit {0})) where
  abbrev pub or_io : Exec S IE (Unit {0}) → Exec S (WorkspaceError IE) (Unit {0})
  or_io m s = let (result, s') = m s in (map_err io result, s')

  unfoldable pub build_paths : PathBuf → Text → Exec S (WorkspaceError IE) WorkspaceBuildPaths
  build_paths root target_name = if is_empty target_name then raise empty_target_name else do
    let config_dir = root ++ (codes "targets" ∷ target_id target_name ∷ [])
    let artifact_dir = root ++ (codes "artifacts" ∷ target_id target_name ∷ [])
    or_io (create_dir_all config_dir)
    or_io (create_dir_all artifact_dir)
    pure (record {
      config_path = config_dir ++ (codes ".config" ∷ []);
      artifact_path = artifact_dir ++ (codes "klipper" ∷ []);
    })
