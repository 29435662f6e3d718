-- ===== src/Agent/Service/Examples.antt =====
-- A run that says one thing, leaves the lock, and records its end.
use aldis.Prelude.{true, false, [], ◌∷◌, refl, none}
use aldis.Update.{ready}
use aldis.Agent.{StatusBody}
use aldis.Agent.Service.{
  UpdateResponse, discover, RunResultBody, asking, cleared, free, of_run, begin, emit, finish,
  push_capped, World, first_world, with_lock, acquire, pass, start, say, leave, record_end, Reach,
  here, next,
}
use aldis.Agent.Service.Runs.{IsSound, Reach-IsSound}
use aldis.Agent.Service.Refines.{IsLogged, log_of, Reach-IsLogged}

abbrev nothing_known : StatusBody
nothing_known = record { blocker = none; mcus = [] }

abbrev hello : UpdateResponse
hello = record { mcu = none; phase = discover; complete = false; result = none }

abbrev success : RunResultBody
success = record { succeeded = true; klippy_state = ready; klipper_left_stopped = false; mcus = [] }

abbrev cleared_world : World
cleared_world = with_lock cleared (with_lock asking first_world)

abbrev started : World
unfolding begin
started = record { lock = of_run 7; service = begin 7 nothing_known; workers = 7 ∷ [] }

abbrev said : World
unfolding started emit
said = record { lock = of_run 7; service = emit hello started.service; workers = 7 ∷ [] }

abbrev last_world : World
unfolding said finish
last_world = record { lock = free; service = finish success said.service; workers = [] }

reached : Reach last_world
unfolding begin emit finish push_capped
reached =
    let asked = next here (acquire refl refl) in
    let clear =
      next {w = with_lock asking first_world} {u = cleared_world} asked (pass refl refl refl) in
    let begun = next {w = cleared_world} {u = started} clear (start 7 nothing_known refl refl) in
    let spoken = next {w = started} {u = said} begun (say hello (λ e. cc e) refl) in
    let left = next {w = said} {u = with_lock free said} spoken (leave 7 refl refl) in
    next {w = with_lock free said} {u = last_world} left
      (record_end 7 [] success refl (λ e. cc e) refl)

Reach-IsSound_example : IsSound last_world
Reach-IsSound_example = Reach-IsSound last_world reached

Reach-IsLogged_example : IsLogged last_world (log_of reached)
Reach-IsLogged_example = Reach-IsLogged last_world reached
