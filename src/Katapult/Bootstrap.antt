-- ===== src/Katapult/Bootstrap.antt =====
-- From a running MCU to a Katapult that is ready (src/flash/katapult/bootstrap.rs). The transports
-- and the socket are parameters.
use aldis.Prelude.{ℕ, Bytes, map_err, lift, Exec, ◌>>=◌, ◌>>◌, pure}
use aldis.Katapult.Session.{SessionError, open_session, finish}
use aldis.Katapult.Can.{
  CanError, CanIo, CanTransportError, new_address, request_bootloader_entry, assign_node,
}
use aldis.Katapult.Adapter.{KatapultAdapter, for_canbus, for_target}

pub data CanBootstrapError (E : Type 0) : Type 0 where
  address : CanError → CanBootstrapError E
  transport : CanTransportError E → CanBootstrapError E

module _ {S E : Type 0} (exchange : Bytes → Exec S E Bytes) where
  -- nothing but `connect` is sent
  unfoldable pub confirm_bootloader : Exec S (SessionError E) KatapultAdapter
  confirm_bootloader = do open_session exchange; pure for_target

  -- `leave_serial`, on the device that was opened
  unfoldable pub leave_serial : Exec S (SessionError E) (Unit {0})
  leave_serial = do open_session exchange; finish exchange

module _ {S E : Type 0} (can : CanIo S E) where
  -- `.map_err(CanBootstrapError::Transport)`
  abbrev pub over_can :
      {A : Type 0} → Exec S (CanTransportError E) A → Exec S (CanBootstrapError E) A
  over_can m s = let (result, s') = m s in (map_err transport result, s')

  -- The bootstrap that is returned is the UUID; its transport is `can`.
  unfoldable pub request_can_bootloader : ℕ → Exec S (CanBootstrapError E) ℕ
  unfolding new_address
  request_can_bootloader uuid = do
    known ← lift (map_err address (new_address uuid))
    over_can (request_bootloader_entry can known)
    pure uuid

  -- `CanKatapultBootstrap::connect`
  unfoldable pub connect : ℕ → Exec S (CanBootstrapError E) KatapultAdapter
  connect uuid = do over_can (assign_node can uuid); pure (for_canbus uuid)
