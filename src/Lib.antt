-- ===== src/Lib.antt =====
-- A model of aldis, which updates the firmware of a 3D printer's microcontrollers (MCUs).
--
-- An update selects MCUs from the inventory that Moonraker reports, prepares a build from the
-- Kconfig that an MCU itself reports, stops Klipper's service, builds, and flashes the MCU through
-- its bootloader; the coordinator is what holds these together. The parts and their files:
--
-- - Kconfig (src/kconfig.rs): `validate` and its tests of lines and values. `Kconfig/Harmless` proves
--   that every line of an accepted text is one of `Kconfig/Admissible`.
-- - Fleet (src/moonraker.rs, src/flash_order.rs): the record of an MCU, and `flash_order`.
--   `Fleet/Peers` (src/fleet/peer.rs) has the rule between printers on one CAN bus.
-- - Eligibility (src/eligibility.rs): `revisions_match`, `klipper_version` and
--   `compare_revisions`; Selection is the rest of that file: what is offered for an update and why
--   not. The semver crate is a record of operations, Semver.
-- - Vendors: firmware that vendors publish. `Foci` (src/foci.rs) identifies a device,
--   `Foci/Releases` looks up and downloads a release, with the digests of src/self_update.rs;
--   `Beacon` (src/beacon.rs) has the DFU image; `Cartographer` (src/cartographer.rs) the manifest,
--   the dictionary of an image and the selection of one for a probe.
-- - Prebuilt (src/prebuilt.rs): which vendor an MCU belongs to, its target, and the requests to
--   flash an update or a file.
-- - Service (src/service.rs, and the commands of src/build.rs): `KlipperService` over a runner of
--   commands.
-- - Prepare (src/prepare.rs, src/flash/request.rs, src/workspace.rs): `prepare_build`, the request for
--   prebuilt firmware with `Destination::is`, and `build_paths`.
-- - Flash (src/flash.rs): what a backend returns. `Flash/Stm32` (src/flash/stm32_dfu.rs) has every
--   function that decides where an STM32 application belongs, `Flash/Picoboot`
--   (src/flash/picoboot.rs) the decoder of UF2 images, `Flash/Samba` (src/flash/samba.rs) where a
--   SAM application belongs and the monitor that writes it.
-- - Katapult (src/flash/katapult/): `Frame` and `Assembler` (mod.rs), `Session` (session.rs), `Can`
--   (can.rs), `Serial` (serial.rs), `Bootstrap` (bootstrap.rs), `Adapter` (adapter.rs). A session uses
--   a transport, of which only `exchange` is known; `Session/Device` says what a bootloader promises
--   that keeps to the protocol.
-- - System (src/flash/system.rs): which backend a prepared MCU is sent to. `System/Usb`
--   (src/flash/usb_bootloader.rs, src/flash/usb_sysfs.rs) has the bootloaders on USB, `System/Host`
--   (src/flash/linux_host.rs) the installer of the Linux host MCU, `System/Entry`
--   (src/flash/katapult/serial.rs) the request for a bootloader and the wait for it, `System/Types`
--   the devices that the dispatch calls.
-- - Coordinator (src/coordinator.rs): `BuildCoordinator` over its ports: the runner, the builder,
--   the file system and the backends.
-- - Update (src/update_run.rs): `ensure_printer_idle` and `run_updates`, which joins the selection,
--   the coordinator and the vendors. Moonraker, the caller's hooks and the waits are an interface;
--   `Retry` (src/retry.rs and the waits of src/update_run.rs) models the waits.
-- - Builder (src/build.rs): `build_with_progress` over the files of the host and the runner of make.
--   The coordinator takes its builder as a port of the same type.
-- - Agent (src/agent/api.rs): the assessment of a printer, with the actions that it offers.
--   `Agent/Service` (src/agent/service.rs) has the requests and the record of a run. Requests, the
--   thread of a run and other processes take their steps in any order, as a relation; a step is what
--   is done under one lock, and the texts of messages are left out.
-- - Prelude: lists, words, text and results that these share.
--
-- A `u8`, `u16`, `u32` or `usize` is a natural number, with the wrap-around or the test for overflow
-- written out where the code has one; text is the list of its bytes, with the white space and letters
-- of ASCII. A method that changes state is a function from a state to a result and a state
-- (`Exec`), and what it had changed before an error stays changed. Devices, sockets, clocks, files,
-- processes and crates are parameters that act on that state.
--
-- Three loops run on fuel. Those that receive a reply over CAN or a serial line: each read takes time,
-- so fuel beyond the timeout is enough, as `Katapult/Can/Exchange` and `Katapult/Serial/Exchange`
-- prove. And `retry_until_available`: every pause lasts 10 ms or more, so one attempt for each 10 ms
-- of the timeout and one more are enough, as `Update/Retry/Available` proves; `System/Entry` waits
-- with it. Every other loop is bounded in the source or runs over a list.
--
-- The messages of errors, labels and progress are constructors with the values they name, and their
-- texts are left out.
--
-- Not modelled: the transfers over USB (DFU, PicoBoot), opening serial devices and sockets, the
-- connection of the agent and its JSON, the search for Cartographer's clone and plugin, and the parts
-- that only do input and output (src/cli.rs, src/ui.rs, src/logging/, src/setup.rs, the installation
-- in src/self_update.rs and the clients of Moonraker and of the network). The inflation and the JSON
-- of an image's dictionary, SHA-1, SHA-256 and semver are parameters.
mod Prelude
pub mod Kconfig
pub mod Fleet
pub mod Eligibility
pub mod Service
pub mod Prepare
pub mod Flash
pub mod Katapult
pub mod Coordinator
pub mod Builder
pub mod System
pub mod Vendors
pub mod Prebuilt
pub mod Selection
pub mod Update
pub mod Agent
