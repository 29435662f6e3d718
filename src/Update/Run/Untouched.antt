-- ===== src/Update/Run/Untouched.antt =====
-- A printer that may be printing is left alone: Klipper is not stopped, and nothing is flashed.
use aldis.Prelude.{
  Bool, true, false, Bool-cases, List, [], ◌∷◌, ◌++◌, Option, none, some, Result, ok, err, map_err,
  Exec, ◌>>=◌, ◌>>◌, pure, raise, continue, ◌≡◌, ◌≢◌, refl, inl, inr, ap,
}
use aldis.Prelude.Keeps.{Keeps, bind-Keeps, if-Keeps}
use aldis.Prelude.Text.{Text, is_empty, codes}
use aldis.Fleet.{Mcu, find_mcu}
use aldis.Prepare.{
  PathBuf, build_paths, or_io, WorkspaceError, empty_target_name, WorkspaceBuildPaths, target_id,
  PreparedBuild, prepare_build,
}
use aldis.Selection.{downgrade_of}
use aldis.Coordinator.{
  Coordinator, PendingBuild, CoordinatorError, on_host, prepare, workspace, preparation,
}
use aldis.Update.{
  KlippyState, ready, startup, klippy_error, shutdown, disconnected, PrintState, standby, printing,
  paused, complete, cancelled, print_error, unknown_state, has_stopped, judged, printer_is,
  not_confirmed, Refusal, Detail, ensure_printer_idle, refused, not_prepared, not_in_inventory,
  would_downgrade,
}
use aldis.Update.Run.{
  Context, Failure, Run, or_else, otherwise, fail_with_detail, fail, check_printer,
  prepare_and_update, if_approved, asked, one_target, run_targets, run_updates, finish,
}

-- The states in which a printer prints, or may.
abbrev pub MayPrint : PrintState → Type 0
MayPrint printing = Unit {0}
MayPrint paused = Unit {0}
MayPrint (unknown_state s) = Unit {0}
MayPrint standby = ⊥
MayPrint complete = ⊥
MayPrint cancelled = ⊥
MayPrint print_error = ⊥

goes_on :
    {ME : Type 0} (host : Result ME KlippyState)
    → host ≢ ok klippy_error
    → host ≢ ok shutdown
    → has_stopped host ≡ false
goes_on (ok ready) h k = refl
goes_on (ok startup) h k = refl
goes_on (ok klippy_error) h k = absurd (h refl)
goes_on (ok shutdown) h k = absurd (k refl)
goes_on (ok disconnected) h k = refl
goes_on (err e) h k = refl

judged_busy :
    {ME : Type 0} (r : Result ME PrintState)
    → ((state : PrintState) → r ≡ ok state → MayPrint state)
    → (e : Refusal ME) × (judged r ≡ err e)
judged_busy (ok standby) h = absurd (h standby refl)
judged_busy (ok printing) h = (printer_is printing, refl)
judged_busy (ok paused) h = (printer_is paused, refl)
judged_busy (ok complete) h = absurd (h complete refl)
judged_busy (ok cancelled) h = absurd (h cancelled refl)
judged_busy (ok print_error) h = absurd (h print_error refl)
judged_busy (ok (unknown_state s)) h = (printer_is (unknown_state s), refl)
judged_busy (err e) h = (not_confirmed e, refl)

module _ {S V CE BE IE F Options ME DE W : Type 0} (x : Context S V CE BE IE F Options ME DE W)
    (P : S → Type 0) where
  -- What a run may do while the printer is not known to be idle, and keeps `P`: create directories,
  -- ask Moonraker and the caller, and report a failure.
  pub record IsQuiet : Type 0 where
    pub creates : (path : PathBuf) → Keeps P (x.ports.create_dir_all path)
    pub approves :
        (name current next : Text) (s : S) → P s → P (x.hooks.approve_update name current next s).1
    pub fails : (detail : Detail CE BE IE F ME _ W) (s : S) → P s → P (x.hooks.failed detail s)
    pub asks_host : Keeps P x.moonraker.host_state
    pub not_stopped :
        (s : S)
        → P s
        → ((x.moonraker.host_state s).0 ≢ ok klippy_error)
          × ((x.moonraker.host_state s).0 ≢ ok shutdown)
    pub asks_printer : Keeps P x.moonraker.print_state
    pub busy :
        (s : S) (state : PrintState)
        → P s
        → (x.moonraker.print_state s).0 ≡ ok state
        → MayPrint state

  abbrev On : Coordinator S → Type 0
  On c = P c.host

  -- nothing is updated by a failure
  abbrev pub Holds : {A : Type 0} → (A → Type 0) → Result (Failure x) A → Type 0
  Holds Q (ok a) = Q a
  Holds Q (err f) = f.updated ≡ []

  abbrev Ends : {A : Type 0} → (A → Type 0) → Run x A → Type 0
  Ends Q m = (c : Coordinator S) → On c → On (m c).1 × Holds Q (m c).0

  continue-Ends :
      {A B : Type 0} (Q : A → Type 0) (R : B → Type 0) (r : Result (Failure x) A) (f : A → Run x B)
      (c : Coordinator S)
      → On c
      → Holds Q r
      → ((a : A) → Q a → Ends R (f a))
      → On (continue r f c).1 × Holds R (continue r f c).0
  continue-Ends Q R (ok a) f c p h k = k a h c p
  continue-Ends Q R (err e) f c p h k = (p, h)

  bind-Ends :
      {A B : Type 0} (Q : A → Type 0) (R : B → Type 0) (m : Run x A) (f : A → Run x B)
      → Ends Q m
      → ((a : A) → Q a → Ends R (f a))
      → Ends R (m >>= f)
  bind-Ends Q R m f h k c p = let (q, r) = h c p in continue-Ends Q R (m c).0 f (m c).1 q r k

  module _ (quiet : IsQuiet) where
    fail-Ends :
        {A : Type 0} (Q : A → Type 0) (detail : Detail CE BE IE F ME _ W) (mcu : Option Text)
        → Ends Q (fail x detail mcu [])
    unfolding fail_with_detail
    fail-Ends Q detail mcu c p = (quiet.fails detail c.host p, refl)

    otherwise-Ends :
        {E A : Type 0} (Q : A → Type 0) (r : Result E A) (f : E → Run x A) (c : Coordinator S)
        → On c
        → ((a : A) → r ≡ ok a → Q a)
        → ((e : E) → Ends Q (f e))
        → On (otherwise r f c).1 × Holds Q (otherwise r f c).0
    otherwise-Ends Q (ok a) f c p k l = (p, k a refl)
    otherwise-Ends Q (err e) f c p k l = l e c p

    or_else-Ends :
        {E A : Type 0} (Q : A → Type 0) (m : Exec (Coordinator S) E A) (f : E → Run x A)
        → Keeps On m
        → ((a : A) → Q a)
        → ((e : E) → Ends Q (f e))
        → Ends Q (or_else m f)
    or_else-Ends Q m f h k l c p = otherwise-Ends Q (m c).0 f (m c).1 (h c p) (λ a e. k a) l

    build_paths-Keeps :
        (name : Text) → Keeps P (build_paths x.ports.create_dir_all x.workspace name)
    unfolding build_paths
    build_paths-Keeps name =
        let config_dir : PathBuf = x.workspace ++ (codes "targets" ∷ target_id name ∷ []) in
        let artifact_dir : PathBuf = x.workspace ++ (codes "artifacts" ∷ target_id name ∷ []) in
        let make : PathBuf → Exec S (WorkspaceError IE) (Unit {0}) =
          λ path. or_io x.ports.create_dir_all (x.ports.create_dir_all path) in
        let done : Exec S (WorkspaceError IE) WorkspaceBuildPaths = pure (record {
          config_path = config_dir ++ (codes ".config" ∷ []);
          artifact_path = artifact_dir ++ (codes "klipper" ∷ []);
        }) in
        if-Keeps P (is_empty name) (raise empty_target_name)
          (make config_dir >>= λ u. make artifact_dir >> done) (λ s p. p)
          (bind-Keeps P (make config_dir) (λ u. make artifact_dir >> done)
            (λ s p. quiet.creates config_dir s p)
            (λ u.
              bind-Keeps P (make artifact_dir) (λ v. done) (λ s p. quiet.creates artifact_dir s p)
                (λ v s p. p)))

    prepare-Keeps :
        (name : Text) → Keeps On (prepare x.ports x.unit x.mcus x.workspace name x.clean)
    unfolding prepare
    prepare-Keeps name =
        let paths : Exec (Coordinator S) (CoordinatorError CE BE IE) WorkspaceBuildPaths =
          on_host workspace (build_paths x.ports.create_dir_all x.workspace name) in
        let build : WorkspaceBuildPaths
            → Exec (Coordinator S) (CoordinatorError CE BE IE) PreparedBuild =
          λ p c. (
            map_err preparation (prepare_build x.mcus name p.config_path p.artifact_path x.clean),
            c,
          ) in
        let done : PreparedBuild → Exec (Coordinator S) (CoordinatorError CE BE IE) PendingBuild =
          λ prepared. pure (record { prepared = prepared }) in
        bind-Keeps On paths (λ p. build p >>= done) (λ c p. build_paths-Keeps name c.host p)
          (λ p. bind-Keeps On (build p) done (λ c q. q) (λ prepared c q. q))

    refuses :
        (s : S)
        → P s
        → (e : Refusal ME) × (t : S) × ((ensure_printer_idle x.moonraker s ≡ (err e, t)) × P t)
    unfolding ensure_printer_idle
    refuses s p =
        let s' = (x.moonraker.host_state s).1 in
        let p' = quiet.asks_host s p in
        let (not_error, not_shut) = quiet.not_stopped s p in
        let on = goes_on (x.moonraker.host_state s).0 not_error not_shut in
        let (e, refusal) =
          judged_busy (x.moonraker.print_state s').0 (λ state h. quiet.busy s' state p' h) in
        (
          e,
          (x.moonraker.print_state s').1,
          (rw on (ap (λ r. (r, (x.moonraker.print_state s').1)) refusal), quiet.asks_printer s' p'),
        )

    check-Ends : (name : Text) → Ends (λ u. ⊥) (check_printer x name [] false)
    unfolding check_printer
    check-Ends name c p =
        let (e, t, refusal) = refuses c.host p in
        let here : (ensure_printer_idle x.moonraker c.host).0 ≡ err e = ap (λ z. z.0) (refusal.0) in
        let there : (ensure_printer_idle x.moonraker c.host).1 ≡ t = ap (λ z. z.1) (refusal.0) in
        otherwise-Ends (λ u. ⊥) (map_err (λ e. e) (ensure_printer_idle x.moonraker c.host).0)
          (λ e. fail x (refused e) (some name) [])
          (on_host (λ e. e) (ensure_printer_idle x.moonraker) c).1 (rw there (refusal.1))
          (λ a h. let h' = rw here at h in cc (h'))
          (λ e. fail-Ends (λ u. ⊥) (refused e) (some name))

    -- of a round: nothing is updated, and the printer is not taken to be idle
    abbrev Nothing : List Text × Bool → Type 0
    Nothing r = (r.0 ≡ []) × (r.1 ≡ false)

    prepare-Ends : (name : Text) (mcu : Mcu) → Ends Nothing (prepare_and_update x name mcu [] false)
    unfolding prepare_and_update
    prepare-Ends name mcu =
        bind-Ends (λ pending. Unit) Nothing
          (or_else (prepare x.ports x.unit x.mcus x.workspace name x.clean)
            (λ e. fail x (not_prepared name e) (some name) []))
          _
          (or_else-Ends (λ pending. Unit) (prepare x.ports x.unit x.mcus x.workspace name x.clean)
            (λ e. fail x (not_prepared name e) (some name) []) (prepare-Keeps name) (λ pending. tt)
            (λ e. fail-Ends {A = PendingBuild} (λ pending. Unit) (not_prepared name e) (some name)))
          (λ pending u.
            bind-Ends (λ u. ⊥) Nothing (check_printer x name [] false) _ (check-Ends name)
              (λ v no. absurd no))

    one-Ends : (name : Text) (found : Option Mcu) → Ends Nothing (one_target x name found [] false)
    unfolding one_target
    one-Ends name none = fail-Ends Nothing (not_in_inventory name) (some name)
    one-Ends name (some mcu) = elim (Bool-cases (downgrade_of x.semver mcu x.target_versions)) [
      | inl down ↦ rw (down, one_target) (fail-Ends Nothing (would_downgrade name) (some name))
      | inr up ↦
          rw (up, one_target)
            (bind-Ends (λ answer. Unit) Nothing (asked x name mcu) (if_approved x name mcu [] false)
              (λ c p. (quiet.approves _ _ _ c.host p, tt)) answered)
    ]
      where
        answered :
            (answer : Bool) → Unit {0} → Ends Nothing (if_approved x name mcu [] false answer)
        answered false u = λ c p. (p, (refl, refl))
        answered true u = prepare-Ends name mcu

    run_targets-Ends :
        (names : List Text) → Ends (λ updated. updated ≡ []) (run_targets x names [] false)
    unfolding run_targets
    run_targets-Ends [] = λ c p. (p, refl)
    run_targets-Ends (name ∷ names) =
        bind-Ends Nothing (λ updated. updated ≡ [])
          (one_target x name (find_mcu name x.mcus) [] false)
          (λ (r : List Text × Bool). run_targets x names r.0 r.1)
          (one-Ends name (find_mcu name x.mcus))
          (λ r same. rw (same.0, same.1) (run_targets-Ends names))

    -- Whatever holds of the host and is kept by creating directories, by asking Moonraker and the
    -- caller and by reporting a failure, still holds after any run in which Moonraker never says
    -- that Klipper is in an error or shut down, nor that the printer is in standby, complete,
    -- cancelled or in an error, whether it says something else or fails to answer: no service
    -- command, build, download or flash can have broken it. Nothing has been updated, whether the run failed or found nothing to do.
    pub run_updates-Untouched :
        (targets : List Text) (c : Coordinator S)
        → P c.host
        → P (run_updates x targets c).1.host
          × Holds (λ updated. updated ≡ []) (run_updates x targets c).0
    unfolding run_updates finish
    run_updates-Untouched targets =
        bind-Ends (λ updated. updated ≡ []) (λ updated. updated ≡ [])
          (run_targets x targets [] false) (finish x) (run_targets-Ends targets)
          (λ updated same. rw same finished)
      where
        finished : Ends (λ updated. updated ≡ []) (finish x [])
        finished c p = (p, refl)
