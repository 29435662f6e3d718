-- ===== src/Katapult/Adapter/Untouched.antt =====
-- A flash that is refused leaves the device as it was.
use aldis.Prelude.{
  Option-cases, ℕ, zero, suc, ◌==◌, ==_iff, Bool-cases, Bytes, Option, none, some, ◌≡◌, ◌≢◌, inl,
  inr, refl, [], Result, ok, err, Exec, lift, Result-cases, length, ltb, take,
}
use aldis.Prelude.Keeps.{Keeps, bind-Keeps, if-Keeps}
use aldis.Flash.{FlashResult}
use aldis.Katapult.Frame.{
  Command, send_block, send_eof, connect, complete, get_canbus_id, encode_command,
}
use aldis.Katapult.Session.{
  Failure, no_response, KatapultTarget, max_attempts, judge, attempts, run_command, open_session,
  verify_canbus_uuid, finish, uuid_from_bytes,
}
use aldis.Katapult.Adapter.{
  KatapultFlashError, KatapultAdapter, check_uuid, refuse, transfer, flash_at, flash,
}

module _ {S : Type 0} (P : S → Type 0) where
  module _ {E : Type 0} (exchange : Bytes → Exec S E Bytes) where
    -- Only a block, or the end of the file, may change what `P` says.
    abbrev pub OnlyWritesTouch : Type 0
    OnlyWritesTouch =
        (command : Command) (payload request : Bytes)
        → command ≢ send_block
        → command ≢ send_eof
        → encode_command command payload ≡ ok request
        → Keeps P (exchange request)

    attempts-Keeps :
        (n : ℕ) (command : Command) (request : Bytes) (last : Failure E)
        → Keeps P (exchange request)
        → Keeps P (attempts exchange n command request last)
    unfolding attempts
    attempts-Keeps zero command request last h s p = p
    attempts-Keeps (suc n) command request last h s p =
        elim (Result-cases (judge command (exchange request s).0)) [
          | inl (response, e) ↦ rw (e, attempts) (h s p)
          | inr (failure, e) ↦
              rw (e, attempts) (attempts-Keeps n command request failure h _ (h s p))
        ]

    run_command-Keeps :
        (command : Command) (payload : Bytes)
        → OnlyWritesTouch
        → command ≢ send_block
        → command ≢ send_eof
        → Keeps P (run_command exchange command payload)
    unfolding run_command
    run_command-Keeps command payload only p q s here =
        elim (Result-cases (encode_command command payload)) [
          | inl (request, e) ↦ rw e (
              attempts-Keeps max_attempts command request no_response
                (only command payload request p q e) s here)
          | inr (x, e) ↦ rw e here
        ]

    open_session-Keeps : OnlyWritesTouch → Keeps P (open_session exchange)
    unfolding open_session
    open_session-Keeps only =
        bind-Keeps P (run_command exchange connect []) _
          (run_command-Keeps connect [] only (λ e. cc) (λ e. cc))
          (λ response.
            if-Keeps P (ltb (length response) 12) _ _ (λ s p. p)
              (bind-Keeps P (lift _) _ (λ s p. p) (λ found s p. p)))

    verify_canbus_uuid-Keeps :
        (uuid : ℕ) → OnlyWritesTouch → Keeps P (verify_canbus_uuid exchange uuid)
    unfolding verify_canbus_uuid
    verify_canbus_uuid-Keeps uuid only =
        bind-Keeps P (run_command exchange get_canbus_id []) _
          (run_command-Keeps get_canbus_id [] only (λ e. cc) (λ e. cc))
          (λ response.
            if-Keeps P (ltb (length response) 6) _ _ (λ s p. p)
              (if-Keeps P (uuid_from_bytes 0 (take 6 response) == uuid) _ _ (λ s p. p) (λ s p. p)))

    check_uuid-Keeps : (uuid : Option ℕ) → OnlyWritesTouch → Keeps P (check_uuid exchange uuid)
    unfolding check_uuid
    check_uuid-Keeps none only s p = p
    check_uuid-Keeps (some uuid) only s p = verify_canbus_uuid-Keeps uuid only s p

    finish-Keeps : OnlyWritesTouch → Keeps P (finish exchange)
    unfolding finish
    finish-Keeps only =
        bind-Keeps P (run_command exchange complete []) _
          (run_command-Keeps complete [] only (λ e. cc) (λ e. cc)) (λ response s p. p)

    -- What `flash` comes to.
    pub data FlashOutcome (adapter : KatapultAdapter) (sha1 : Bytes → Bytes) (firmware : Bytes)
        (s : S) (r : Result (KatapultFlashError E) FlashResult × S) : Type 0 where
      untouched :
          {e : KatapultFlashError E} → r.0 ≡ err e → P r.1 → FlashOutcome adapter sha1 firmware s r
      begun :
          {v : S} (target : KatapultTarget)
          → P v
          → ((start : ℕ)
              → adapter.expected_application_start ≡ some start
              → target.application_start ≡ start)
          → r ≡ transfer exchange sha1 firmware target v
          → FlashOutcome adapter sha1 firmware s r

    flash_at-FlashOutcome :
        (adapter : KatapultAdapter) (sha1 : Bytes → Bytes) (firmware : Bytes)
        (target : KatapultTarget) (s v : S)
        → OnlyWritesTouch
        → P v
        → FlashOutcome adapter sha1 firmware s
            (flash_at exchange adapter.expected_application_start sha1 firmware target v)
    unfolding flash_at refuse
    flash_at-FlashOutcome adapter sha1 firmware target s v only p =
        elim (Option-cases adapter.expected_application_start) [
          | inl e ↦ rw e (begun target p (λ start q. cc) refl)
          | inr (expected, e) ↦ elim (Bool-cases (target.application_start == expected)) [
            | inl same ↦
                let at = (==_iff target.application_start expected).0 same in
                rw (e, flash_at, same) (begun target p (λ start q. cc) refl)
            | inr other ↦ rw (e, flash_at, other) (untouched refl (finish-Keeps only v p))
          ]
        ]

    -- Let `P` be anything about the device that only a block or the end of the file can change.
    -- A flash either fails with `P` as it was, or it begins the transfer in a state where `P` still
    -- holds, to a target that starts its application where the firmware is linked to run, if
    -- that address was given.
    pub flash-FlashOutcome :
        (adapter : KatapultAdapter) (sha1 : Bytes → Bytes) (firmware : Bytes) (s : S)
        → OnlyWritesTouch
        → P s
        → FlashOutcome adapter sha1 firmware s (flash exchange adapter sha1 firmware s)
    unfolding flash
    flash-FlashOutcome adapter sha1 firmware s only p =
        let t = (open_session exchange s).1 in
        let pt = open_session-Keeps only s p in
        let pv = check_uuid-Keeps adapter.expected_canbus_uuid only t pt in
        elim (Result-cases (open_session exchange s).0) [
          | inr (x, e) ↦ rw e (untouched refl pt)
          | inl (connection, e) ↦
              elim (Result-cases (check_uuid exchange adapter.expected_canbus_uuid t).0) [
                | inr (x, f) ↦ rw (e, f) (untouched refl pv)
                | inl (u, f) ↦
                    rw (e, f)
                      (flash_at-FlashOutcome adapter sha1 firmware connection.target s _ only pv)
              ]
        ]
