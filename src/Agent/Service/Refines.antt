-- ===== src/Agent/Service/Refines.antt =====
-- The record of runs as a log, of which the service keeps the end (src/agent/service.rs).
use mathlib.Core.Path.{subst}
use aldis.Prelude.{
  ℕ, zero, suc, ◌-◌, ◌≤◌, ◌<◌, leb, ◌≡◌, ◌≢◌, refl, sym, ap, ◌∙◌, inl, inr, arith, true, false,
  if◌then◌else◌, Bool-cases, List, [], ◌∷◌, ◌++◌, length, length-append, drop, length-drop, Option,
  none, some,
}
use aldis.Agent.{StatusBody}
use aldis.Agent.Service.{
  RunBody, UpdateResponse, RunResultBody, message_cap, push_capped, is_running_body, is_running,
  begin, emit, finish, World, Step, taken, given_back, acquire, refuse_running, pass, refuse, start,
  say, leave, record_end, Reach, here, next,
}
use aldis.Agent.Service.Runs.{IsAlone, IsLockedFor, IsSound, Reach-IsSound}

-- What is to be known of the last run: every message, and the result once it has ended.
pub data Log : Type 0 where
  nothing : Log
  ongoing : ℕ → List UpdateResponse → Log
  ended : ℕ → List UpdateResponse → RunResultBody → Log

abbrev pub IsQuiet : Log → Type 0
IsQuiet nothing = Unit {0}
IsQuiet (ongoing id messages) = ⊥
IsQuiet (ended id messages result) = Unit {0}

-- The logs that can be written: runs begin one after the other.
pub data Written : Log → Type 0 where
  empty_log : Written nothing
  begins : {l : Log} (id : ℕ) → Written l → IsQuiet l → Written (ongoing id [])
  reports :
      {id : ℕ} {messages : List UpdateResponse} (message : UpdateResponse)
      → Written (ongoing id messages)
      → Written (ongoing id (messages ++ (message ∷ [])))
  ends :
      {id : ℕ} {messages : List UpdateResponse} (result : RunResultBody)
      → Written (ongoing id messages)
      → Written (ended id messages result)

-- the last messages, as many as are kept
abbrev pub latest : {A : Type 0} → ℕ → List A → List A
latest n xs = drop (length xs - n) xs

abbrev pub Shows : Option RunBody → Log → Type 0
Shows none nothing = Unit {0}
Shows none (ongoing id messages) = ⊥
Shows none (ended id messages result) = ⊥
Shows (some body) nothing = ⊥
Shows (some body) (ongoing id messages) =
    (is_running_body body ≡ true)
    × (body.run_id ≡ id)
    × (body.result ≡ none)
    × (body.messages ≡ latest message_cap messages)
Shows (some body) (ended id messages result) =
    (is_running_body body ≡ false)
    × (body.run_id ≡ id)
    × (body.result ≡ some result)
    × (body.messages ≡ latest message_cap messages)

drop-front :
    {A : Type 0} (n : ℕ) (xs ys : List A) → n ≤ length xs → drop n (xs ++ ys) ≡ drop n xs ++ ys
drop-front zero xs ys h = refl
drop-front (suc n) [] ys h = absurd (omega arith)
drop-front (suc n) (x ∷ xs) ys h = drop-front n xs ys (omega arith)

drop_one-drop : {A : Type 0} (n : ℕ) (xs : List A) → drop 1 (drop n xs) ≡ drop (suc n) xs
drop_one-drop zero xs = refl
drop_one-drop (suc n) [] = refl
drop_one-drop (suc n) (x ∷ xs) = drop_one-drop n xs

-- Dropping the first of a full buffer keeps the latest.
push-latest :
    {A : Type 0} (cap : ℕ) (xs kept : List A) (x : A)
    → 0 < cap
    → kept ≡ latest cap xs
    → (if leb cap (length kept) then drop 1 kept else kept) ++ (x ∷ [])
      ≡ latest cap (xs ++ (x ∷ []))
push-latest cap xs kept x h e =
    let n = length xs - cap in
    let held : length kept ≡ length xs - n = ap length e ∙ length-drop n xs in
    let longer = length-append xs (x ∷ []) in
    elim (Bool-cases (leb cap (length kept))) [
      | inl full ↦
          let many : cap ≤ length xs = ground arith in
          let skip : length (xs ++ (x ∷ [])) - cap ≡ suc n = omega arith in
          rw (full, skip, drop-front (suc n) xs (x ∷ []) (omega arith))
            (ap (λ ys. ys ++ (x ∷ [])) (ap (drop 1) e ∙ drop_one-drop n xs))
      | inr room ↦
          let few : length xs < cap = ground arith in
          let none' : n ≡ 0 = omega arith in
          let skip : length (xs ++ (x ∷ [])) - cap ≡ 0 = omega arith in
          rw (room, skip) (ap (λ ys. ys ++ (x ∷ [])) (e ∙ ap (λ i. drop i xs) none'))
    ]

-- What a step adds to the log: a run, a message of its thread, or its result.
abbrev pub heard : UpdateResponse → Log → Log
heard message nothing = nothing
heard message (ongoing id messages) = ongoing id (messages ++ (message ∷ []))
heard message (ended id messages result) = ended id messages result

abbrev pub closed : RunResultBody → Log → Log
closed result nothing = nothing
closed result (ongoing id messages) = ended id messages result
closed result (ended id messages before) = ended id messages before

quiet : (run : Option RunBody) (l : Log) → is_running run ≡ false → Shows run l → IsQuiet l
quiet none nothing stopped shown = tt
quiet none (ongoing id messages) stopped shown = shown
quiet none (ended id messages result) stopped shown = tt
quiet (some body) nothing stopped shown = tt
quiet (some body) (ongoing id messages) stopped shown = absurd (cc (shown.0, stopped))
quiet (some body) (ended id messages result) stopped shown = tt

-- A message, or the end, of the run that goes on.
emit-Shows :
    (id : ℕ) (others : List ℕ) (run : Option RunBody) (snapshot : Option StatusBody)
    (message : UpdateResponse) (l : Log)
    → IsAlone (id ∷ others) run
    → Written l
    → Shows run l
    → Written (heard message l)
      × Shows (emit message (record { run = run; run_snapshot = snapshot })).run (heard message l)
unfolding emit push_capped
emit-Shows id [] none snapshot message l h written shown = absurd h
emit-Shows id [] (some body) snapshot message nothing h written shown = absurd shown
emit-Shows id [] (some body) snapshot message (ongoing i messages) h written shown = (
  reports message written,
  (
    shown.0,
    shown.1,
    shown.2,
    push-latest message_cap messages body.messages message (omega arith) shown.3,
  ),
)
emit-Shows id [] (some body) snapshot message (ended i messages result) h written shown =
    absurd (cc (h.0, shown.0))
emit-Shows id (other ∷ others) run snapshot message l h written shown = absurd h

finish-Shows :
    (id : ℕ) (others : List ℕ) (run : Option RunBody) (snapshot : Option StatusBody)
    (result : RunResultBody) (l : Log)
    → IsAlone (id ∷ others) run
    → Written l
    → Shows run l
    → Written (closed result l)
      × Shows (finish result (record { run = run; run_snapshot = snapshot })).run (closed result l)
unfolding finish
finish-Shows id [] none snapshot result l h written shown = absurd h
finish-Shows id [] (some body) snapshot result nothing h written shown = absurd shown
finish-Shows id [] (some body) snapshot result (ongoing i messages) h written shown =
    (ends result written, (refl, shown.1, refl, shown.3))
finish-Shows id [] (some body) snapshot result (ended i messages before) h written shown =
    absurd (cc (h.0, shown.0))
finish-Shows id (other ∷ others) run snapshot result l h written shown = absurd h

abbrev pub log_step : {w u : World} → Step w u → Log → Log
log_step (taken l e) log = log
log_step (given_back l e) log = log
log_step (acquire l e) log = log
log_step (refuse_running l r e) log = log
log_step (pass l r e) log = log
log_step (refuse l e) log = log
log_step (start id body l e) log = ongoing id []
log_step (say message some' e) log = heard message log
log_step (leave id l e) log = log
log_step (record_end id others result ws other e) log = closed result log

-- the log of everything that has happened
abbrev pub log_of : {w : World} → Reach w → Log
log_of here = nothing
log_of (next r step) = log_step step (log_of r)

abbrev pub IsLogged : World → Log → Type 0
IsLogged w l = Written l × Shows w.service.run l

with_threads :
    (workers : List ℕ) (run : Option RunBody) {A : Type 0}
    → workers ≢ []
    → IsAlone workers run
    → ((id : ℕ) (others : List ℕ) → IsAlone (id ∷ others) run → A)
    → A
with_threads [] run some' h f = absurd (some' refl)
with_threads (id ∷ others) run some' h f = f id others h

Step-IsLogged :
    (w u : World) (log : Log)
    → IsSound w
    → (step : Step w u) → IsLogged w log
    → IsLogged u (log_step step log)
unfolding begin
Step-IsLogged w u log h (taken l e) k = subst (λ x. IsLogged x log) (sym e) k
Step-IsLogged w u log h (given_back l e) k = subst (λ x. IsLogged x log) (sym e) k
Step-IsLogged w u log h (acquire l e) k = subst (λ x. IsLogged x log) (sym e) k
Step-IsLogged w u log h (refuse_running l r e) k = subst (λ x. IsLogged x log) (sym e) k
Step-IsLogged w u log h (pass l r e) k = subst (λ x. IsLogged x log) (sym e) k
Step-IsLogged w u log h (refuse l e) k = subst (λ x. IsLogged x log) (sym e) k
Step-IsLogged w u log h (leave id l e) k = subst (λ x. IsLogged x log) (sym e) k
Step-IsLogged w u log h (start id body l e) (written, shown) =
    let alone = subst (λ lock. IsLockedFor lock w.workers) l h.1 in
    let stopped = subst (λ ws. IsAlone ws w.service.run) alone h.0 in
    subst (λ x. IsLogged x (ongoing id [])) (sym e)
      (begins id written (quiet w.service.run log stopped shown), (refl, refl, refl, refl))
Step-IsLogged w u log h (say message some' e) (written, shown) =
    subst (λ x. IsLogged x (heard message log)) (sym e)
      (with_threads w.workers w.service.run some' h.0 (λ id others alone.
        emit-Shows id others w.service.run w.service.run_snapshot message log alone written shown))
Step-IsLogged w u log h (record_end id others result ws other e) (written, shown) =
    subst (λ x. IsLogged x (closed result log)) (sym e)
      (finish-Shows id others w.service.run w.service.run_snapshot result log
        (subst (λ xs. IsAlone xs w.service.run) ws h.0) written shown)

-- Whatever steps are taken and in whatever order, what the service records is shown by the log of
-- these very steps, to which a start adds a run, what a thread says a message, and the end of a
-- thread its result: the record has that run, whether it has ended, its result, and the last 500 of
-- all its messages. In the log runs begin one after the other, and no message is lost.
pub Reach-IsLogged : (w : World) (r : Reach w) → IsLogged w (log_of r)
Reach-IsLogged w here = (empty_log, tt)
Reach-IsLogged w (next {w = v} r step) =
    Step-IsLogged v w (log_of r) (Reach-IsSound v r) step (Reach-IsLogged v r)
