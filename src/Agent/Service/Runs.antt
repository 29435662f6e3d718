-- ===== src/Agent/Service/Runs.antt =====
-- Whatever the order of the steps, one run goes on at a time and its record is its own
-- (src/agent/service.rs).
use mathlib.Core.Path.{subst}
use aldis.Prelude.{
  ℕ, ◌≤◌, leb, ◌≡◌, ◌≢◌, refl, sym, ap, inl, inr, arith, true, false, Bool-cases, List, [], ◌∷◌,
  length, length-append, drop, length-drop, get_or, Option, none, some,
}
use aldis.Agent.{StatusBody}
use aldis.Agent.Service.{
  RunBody, UpdateResponse, RunResultBody, message_cap, push_capped, is_running_body, is_running,
  begin, emit, finish, Lock, free, elsewhere, asking, cleared, of_run, World, with_lock, Step,
  taken, given_back, acquire, refuse_running, pass, refuse, start, say, leave, record_end, Reach,
  here, next,
}

-- The thread of a run is the only one, and the record is its record.
abbrev pub IsOwn : ℕ → Option RunBody → Type 0
IsOwn id none = ⊥
IsOwn id (some body) = (is_running_body body ≡ true) × (body.run_id ≡ id)

abbrev pub IsAlone : List ℕ → Option RunBody → Type 0
IsAlone [] run = is_running run ≡ false
IsAlone (id ∷ []) run = IsOwn id run
IsAlone (id ∷ other ∷ others) run = ⊥

-- What the lock tells of the threads.
abbrev pub IsLockedFor : Lock → List ℕ → Type 0
IsLockedFor free workers = Unit {0}
IsLockedFor elsewhere workers = Unit {0}
IsLockedFor asking workers = Unit {0}
IsLockedFor cleared workers = workers ≡ []
IsLockedFor (of_run id) workers = workers ≡ id ∷ []

abbrev pub IsCapped : Option RunBody → Type 0
IsCapped none = Unit {0}
IsCapped (some body) = length body.messages ≤ message_cap

abbrev pub IsSound : World → Type 0
IsSound w = IsAlone w.workers w.service.run × IsLockedFor w.lock w.workers × IsCapped w.service.run

alone-none :
    (workers : List ℕ) (run : Option RunBody)
    → IsAlone workers run
    → is_running run ≡ false
    → workers ≡ []
alone-none [] run h stopped = refl
alone-none (id ∷ []) none h stopped = absurd h
alone-none (id ∷ []) (some body) h stopped = absurd (cc (h.0, stopped))
alone-none (id ∷ other ∷ others) run h stopped = absurd h

push-capped :
    (body : RunBody) (message : UpdateResponse)
    → length body.messages ≤ message_cap
    → length (push_capped body message).messages ≤ message_cap
unfolding push_capped
push-capped body message h = elim (Bool-cases (leb message_cap (length body.messages))) [
  | inl full ↦
      rw (full, length-append (drop 1 body.messages) (message ∷ []), length-drop 1 body.messages)
        (omega arith)
  | inr room ↦ rw (room, length-append body.messages (message ∷ [])) (ground arith)
]

emit-IsAlone :
    (workers : List ℕ) (run : Option RunBody) (snapshot : Option StatusBody)
    (message : UpdateResponse)
    → IsAlone workers run
    → IsAlone workers (emit message (record { run = run; run_snapshot = snapshot })).run
unfolding emit push_capped
emit-IsAlone [] none snapshot message h = h
emit-IsAlone [] (some body) snapshot message h = h
emit-IsAlone (id ∷ []) none snapshot message h = h
emit-IsAlone (id ∷ []) (some body) snapshot message h = h
emit-IsAlone (id ∷ other ∷ others) run snapshot message h = h

emit-IsCapped :
    (run : Option RunBody) (snapshot : Option StatusBody) (message : UpdateResponse)
    → IsCapped run
    → IsCapped (emit message (record { run = run; run_snapshot = snapshot })).run
unfolding emit
emit-IsCapped none snapshot message h = h
emit-IsCapped (some body) snapshot message h = push-capped body message h

-- The end that the last thread records leaves none.
finish-IsAlone :
    (id : ℕ) (others : List ℕ) (run : Option RunBody) (snapshot : Option StatusBody)
    (result : RunResultBody)
    → IsAlone (id ∷ others) run
    → (others ≡ [])
      × IsAlone others (finish result (record { run = run; run_snapshot = snapshot })).run
unfolding finish
finish-IsAlone id [] none snapshot result h = absurd h
finish-IsAlone id [] (some body) snapshot result h = (refl, refl)
finish-IsAlone id (other ∷ others) run snapshot result h = absurd h

finish-IsCapped :
    (run : Option RunBody) (snapshot : Option StatusBody) (result : RunResultBody)
    → IsCapped run
    → IsCapped (finish result (record { run = run; run_snapshot = snapshot })).run
unfolding finish
finish-IsCapped none snapshot result h = h
finish-IsCapped (some body) snapshot result h = h

-- Without a thread of its own no run holds the lock.
unlocked :
    (lock : Lock) (id : ℕ) (others : List ℕ)
    → IsLockedFor lock (id ∷ others)
    → lock ≢ of_run id
    → IsLockedFor lock []
unlocked free id others h k = tt
unlocked elsewhere id others h k = tt
unlocked asking id others h k = tt
unlocked cleared id others h k = refl
unlocked (of_run x) id others h k = absurd (k (ap of_run (sym (ap (λ xs. get_or xs 0 0) h))))

with_lock-IsSound :
    (lock : Lock) (w : World) → IsSound w → IsLockedFor lock w.workers → IsSound (with_lock lock w)
with_lock-IsSound lock w h k = (h.0, k, h.2)

Step-IsSound : (w u : World) → Step w u → IsSound w → IsSound u
unfolding begin
Step-IsSound w u (taken l e) h = subst IsSound (sym e) (with_lock-IsSound elsewhere w h tt)
Step-IsSound w u (given_back l e) h = subst IsSound (sym e) (with_lock-IsSound free w h tt)
Step-IsSound w u (acquire l e) h = subst IsSound (sym e) (with_lock-IsSound asking w h tt)
Step-IsSound w u (refuse_running l r e) h = subst IsSound (sym e) (with_lock-IsSound free w h tt)
Step-IsSound w u (pass l r e) h =
    subst IsSound (sym e) (with_lock-IsSound cleared w h (alone-none w.workers w.service.run h.0 r))
Step-IsSound w u (refuse l e) h = subst IsSound (sym e) (with_lock-IsSound free w h tt)
Step-IsSound w u (start id body l e) h =
    let none' = subst (λ lock. IsLockedFor lock w.workers) l h.1 in
    subst IsSound (sym e) (
      subst (λ ws. IsAlone (id ∷ ws) (begin id body).run) (sym none') (refl, refl),
      ap (λ ws. id ∷ ws) none',
      omega arith,
    )
Step-IsSound w u (say message some' e) h = subst IsSound (sym e) (
  emit-IsAlone w.workers w.service.run w.service.run_snapshot message h.0,
  h.1,
  emit-IsCapped w.service.run w.service.run_snapshot message h.2,
)
Step-IsSound w u (leave id l e) h = subst IsSound (sym e) (with_lock-IsSound free w h tt)
Step-IsSound w u (record_end id others result ws other e) h =
    let alone = subst (λ xs. IsAlone xs w.service.run) ws h.0 in
    let (none', idle) =
      finish-IsAlone id others w.service.run w.service.run_snapshot result alone in
    let held = unlocked w.lock id others (subst (IsLockedFor w.lock) ws h.1) other in
    subst IsSound (sym e) (
      idle,
      subst (IsLockedFor w.lock) (sym none') held,
      finish-IsCapped w.service.run w.service.run_snapshot result h.2,
    )

-- Whatever steps requests, the threads of runs and other processes take, and in whatever order: at
-- most one run goes on, the record is the record of that run while it does, and of none otherwise,
-- and it holds at most 500 messages; a request that has looked at the record and holds the lock
-- finds no run, and a run that holds the lock is the one that goes on.
pub Reach-IsSound : (w : World) → Reach w → IsSound w
Reach-IsSound w here = (refl, tt, tt)
Reach-IsSound w (next {w = v} r step) = Step-IsSound v w step (Reach-IsSound v r)
