-- ===== src/Controller.antt =====
-- src/nova_act/impl/controller.py, and the watcher of src/nova_act/impl/keyboard_event_watcher.py behind
-- it: pausing and cancelling an act from other threads. Each method holds the controller's lock,
-- so the threads' calls form one sequence; the watcher's thread adds its rounds to it. `__enter__`
-- holds no lock from the start of the watcher to the reset.
pub mod Cancelling
use nova_act.Prelude.{Bool, true, false, Option, none, some, List, [], ◌∷◌, if◌then◌else◌}
use nova_act.Prelude.Text.{text}
use nova_act.Errors.{Result, ok, err, plain}
use nova_act.Errors.Classes.{runtime_error}

-- `running` says that the watcher's thread is in its loop.
pub record Watcher : Type 0 where
  pub trigger : Bool
  pub final_stop : Bool
  pub running : Bool

abbrev pub new_watcher : Watcher
new_watcher = record { trigger = false; final_stop = false; running = false }

-- One test and round of `_watch_for_trigger`: whether a debugger is attached, and whether the
-- watched key was read.
unfoldable pub watch : Bool → Bool → Watcher → Watcher
watch debugger key w =
    if w.running
    then (if w.final_stop
        then record w { running = false }
        else if debugger
        then record w { final_stop = true; running = false }
        else if key
        then record w { trigger = true }
        else w)
    else w

unfoldable pub enter_watcher : Watcher → Watcher
enter_watcher w = record w { running = true }

-- The thread has been joined when this returns.
unfoldable pub exit_watcher : Watcher → Watcher
exit_watcher w = record w { final_stop = true; running = false }

unfoldable pub is_triggered : Watcher → Bool
is_triggered w = w.trigger

unfoldable pub reset_watcher : Watcher → Watcher
reset_watcher w = record w { trigger = false }

pub data ControlState : Type 0 where
  active paused cancelled : ControlState

-- `keyboard` is `none` where there is no terminal.
pub record Controller : Type 0 where
  pub keyboard : Option Watcher
  pub state : ControlState

unfoldable pub new_controller : Bool → Controller
new_controller tty = record {
  keyboard = if tty then some new_watcher else none;
  state = ControlState.active;
}

triggered : Option Watcher → Bool
unfolding is_triggered
triggered none = false
triggered (some w) = is_triggered w

on_watcher : (Watcher → Watcher) → Controller → Controller
on_watcher f c = record c { keyboard = elim c.keyboard [ none ↦ none | some w ↦ some (f w) ] }

-- The property `state`, which may write the state that it reads.
unfoldable pub read_state : Controller → ControlState × Controller
unfolding triggered
read_state c =
    if triggered c.keyboard then (cancelled, record c { state = cancelled }) else (c.state, c)

pause_in : ControlState → Controller → Result Unit × Controller
pause_in active c = (ok tt, record c { state = paused })
pause_in _ c = (err (plain runtime_error (text "Cannot pause")), c)

unfoldable pub pause : Controller → Result Unit × Controller
unfolding pause_in
pause c = pause_in c.state c

resume_in : ControlState → Controller → Result Unit × Controller
resume_in paused c = (ok tt, record c { state = active })
resume_in _ c = (err (plain runtime_error (text "Cannot resume")), c)

unfoldable pub resume : Controller → Result Unit × Controller
unfolding resume_in
resume c = resume_in c.state c

unfoldable pub cancel : Controller → Controller
cancel c = record c { state = cancelled }

unfoldable pub reset : Controller → Controller
unfolding on_watcher reset_watcher
reset c = record (on_watcher reset_watcher c) { state = active }

-- What other threads do.
pub data Action : Type 0 where
  do_read do_pause do_resume do_cancel : Action
  round : Bool → Bool → Action

unfoldable pub step : Action → Controller → Controller
unfolding on_watcher read_state pause resume cancel
step do_read c = (read_state c).1
step do_pause c = (pause c).1
step do_resume c = (resume c).1
step do_cancel c = cancel c
step (round debugger key) c = on_watcher (watch debugger key) c

unfoldable pub steps : List Action → Controller → Controller
steps [] c = c
steps (a ∷ rest) c = steps rest (step a c)

-- `__enter__` starts the watcher's thread and only then resets: `between` is what other threads do
-- in the meantime.
unfoldable pub enter : List Action → Controller → Controller
unfolding on_watcher enter_watcher steps reset
enter between c = reset (steps between (on_watcher enter_watcher c))

-- Once the watcher's thread is joined, the reset writes all that other threads write.
unfoldable pub exit : Controller → Controller
unfolding on_watcher exit_watcher reset
exit c = reset (on_watcher exit_watcher c)
