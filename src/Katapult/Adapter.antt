-- ===== src/Katapult/Adapter.antt =====
-- `KatapultAdapter` (src/flash/katapult/adapter.rs): one flash over a session. `exchange` is the
-- transport and `sha1` the digest, as in the session.
pub mod Untouched
use aldis.Prelude.{
  ℕ, ◌==◌, not, ◌&&◌, Bytes, Option, none, some, Result, ok, err, map_err, Exec, ◌>>=◌, ◌>>◌, pure,
  raise, if◌then◌else◌,
}
use aldis.Flash.{FlashResult}
use aldis.Katapult.Session.{
  SessionError, KatapultTarget, open_session, verify_canbus_uuid, upload, finish,
}

pub data KatapultFlashError (E : Type 0) : Type 0 where
  session : SessionError E → KatapultFlashError E
  -- expected, actual
  application_start_mismatch : ℕ → ℕ → KatapultFlashError E

-- the adapter beside its session, which is the state
pub record KatapultAdapter : Type 0 where
  pub expected_canbus_uuid : Option ℕ
  pub expected_application_start : Option ℕ

-- `KatapultAdapter::new`
abbrev pub for_target : KatapultAdapter
for_target = record { expected_canbus_uuid = none; expected_application_start = none }

abbrev pub for_canbus : ℕ → KatapultAdapter
for_canbus uuid = record { expected_canbus_uuid = some uuid; expected_application_start = none }

abbrev pub expecting_application_start : KatapultAdapter → ℕ → KatapultAdapter
expecting_application_start adapter start = record {
  expected_canbus_uuid = adapter.expected_canbus_uuid;
  expected_application_start = some start;
}

-- `.map_err(KatapultFlashError::Session)`
abbrev pub in_session :
    {S E A : Type 0} → Exec S (SessionError E) A → Exec S (KatapultFlashError E) A
in_session m s = let (result, s') = m s in (map_err session result, s')

module _ {S E : Type 0} (exchange : Bytes → Exec S E Bytes) where
  unfoldable pub check_uuid : Option ℕ → Exec S (KatapultFlashError E) (Unit {0})
  check_uuid none = pure tt
  check_uuid (some uuid) = in_session (verify_canbus_uuid exchange uuid)

  -- The existing application is started, and a failure to start it is only logged.
  unfoldable pub refuse : ℕ → ℕ → Exec S (KatapultFlashError E) FlashResult
  refuse expected actual s =
      let (ignored, s') = finish exchange s in
      (err (application_start_mismatch expected actual), s')

  unfoldable pub transfer :
      (Bytes → Bytes) → Bytes → KatapultTarget → Exec S (KatapultFlashError E) FlashResult
  transfer sha1 firmware target = do
    result ← in_session (upload exchange sha1 firmware target)
    in_session (finish exchange)
    pure (record { reported_pages = some result.pages_written; padded_bytes = result.padded_bytes })

  unfoldable pub flash_at :
      Option ℕ
      → (Bytes → Bytes)
      → Bytes
      → KatapultTarget
      → Exec S (KatapultFlashError E) FlashResult
  unfolding refuse transfer
  flash_at none sha1 firmware target = transfer sha1 firmware target
  flash_at (some expected) sha1 firmware target =
      if not (target.application_start == expected)
      then refuse expected target.application_start
      else transfer sha1 firmware target

  unfoldable pub flash :
      KatapultAdapter → (Bytes → Bytes) → Bytes → Exec S (KatapultFlashError E) FlashResult
  unfolding check_uuid flash_at
  flash adapter sha1 firmware = do
    connection ← in_session (open_session exchange)
    check_uuid adapter.expected_canbus_uuid
    flash_at adapter.expected_application_start sha1 firmware connection.target
