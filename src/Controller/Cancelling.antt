-- ===== src/Controller/Cancelling.antt =====
-- Cancelling is final until the controller is reset, and which key presses cancel.
use nova_act.Prelude.{◌≡◌, refl, Bool, true, false, some, List, [], ◌∷◌, arith}
use nova_act.Errors.{ok}
use nova_act.Controller.{
  Watcher, watch, enter_watcher, on_watcher, active, cancelled, Controller, read_state, pause,
  resume, enter, exit, Action, do_read, do_pause, do_resume, do_cancel, round, step, steps,
}

step_cancelled : (a : Action) (c : Controller) → c.state ≡ cancelled → (step a c).state ≡ cancelled
unfolding step watch
step_cancelled do_read c h = ground arith
step_cancelled do_pause c h = ground arith
step_cancelled do_resume c h = ground arith
step_cancelled do_cancel c h = ground arith
step_cancelled (round d k) c h = ground arith

-- Once an act is cancelled, no sequence of reads, pauses, resumes, cancels and rounds of the
-- watcher makes it go on, and the control loop reads the cancellation.
pub steps_cancelled :
    (actions : List Action) (c : Controller)
    → c.state ≡ cancelled
    → (read_state (steps actions c)).0 ≡ cancelled
unfolding steps
steps_cancelled [] c h = unfold read_state in ground arith
steps_cancelled (a ∷ actions) c h = steps_cancelled actions (step a c) (step_cancelled a c h)

-- Pausing succeeds only on an active controller, and resuming then restores it exactly.
pub pause-resume :
    (c : Controller) → (pause c).0 ≡ ok tt → (c.state ≡ active) × (resume (pause c).1 ≡ (ok tt, c))
unfolding pause resume
pause-resume c h = ground arith

-- The watcher has seen the key.
abbrev HasKey : Controller → Type 0
HasKey c = (w : Watcher) × (c.keyboard ≡ some w) × (w.trigger ≡ true)

step-HasKey : (a : Action) (c : Controller) → HasKey c → HasKey (step a c)
unfolding step watch
step-HasKey do_read c (w, k, t) = (w, ground arith, t)
step-HasKey do_pause c (w, k, t) = (w, ground arith, t)
step-HasKey do_resume c (w, k, t) = (w, ground arith, t)
step-HasKey do_cancel c (w, k, t) = (w, ground arith, t)
step-HasKey (round d b) c (w, k, t) = (watch d b w, ground arith, ground arith)

steps-HasKey : (actions : List Action) (c : Controller) → HasKey c → HasKey (steps actions c)
unfolding steps
steps-HasKey [] c h = h
steps-HasKey (a ∷ actions) c h = steps-HasKey actions (step a c) (step-HasKey a c h)

HasKey-cancelled : (c : Controller) → HasKey c → (read_state c).0 ≡ cancelled
unfolding read_state
HasKey-cancelled c (w, k, t) = ground arith

-- A round of the watcher with a debugger attached ends it.
abbrev pub IsQuiet : List Action → Type 0
IsQuiet [] = Unit
IsQuiet (round true key ∷ actions) = ⊥
IsQuiet (_ ∷ actions) = IsQuiet actions

abbrev IsWatching : Controller → Type 0
IsWatching c = (w : Watcher) × (c.keyboard ≡ some w) × (w.final_stop ≡ false) × (w.running ≡ true)

steps-IsWatching :
    (actions : List Action) (c : Controller)
    → IsQuiet actions
    → IsWatching c
    → IsWatching (steps actions c)
unfolding steps step watch
steps-IsWatching [] c q h = h
steps-IsWatching (do_read ∷ actions) c q (w, k, f, r) =
    steps-IsWatching actions (step do_read c) q (w, ground arith, f, r)
steps-IsWatching (do_pause ∷ actions) c q (w, k, f, r) =
    steps-IsWatching actions (step do_pause c) q (w, ground arith, f, r)
steps-IsWatching (do_resume ∷ actions) c q (w, k, f, r) =
    steps-IsWatching actions (step do_resume c) q (w, ground arith, f, r)
steps-IsWatching (do_cancel ∷ actions) c q (w, k, f, r) =
    steps-IsWatching actions (step do_cancel c) q (w, ground arith, f, r)
steps-IsWatching (round true b ∷ actions) c q h = absurd q
steps-IsWatching (round false b ∷ actions) c q (w, k, f, r) =
    steps-IsWatching actions (step (round false b) c) q
      (watch false b w, ground arith, ground arith, ground arith)

enter-IsWatching :
    (between : List Action) (c : Controller) (w : Watcher)
    → IsQuiet between
    → c.keyboard ≡ some w
    → w.final_stop ≡ false
    → IsWatching (enter between c)
unfolding enter
enter-IsWatching between c w q k f =
    let start = on_watcher enter_watcher c in
    let (v, kv, fv, rv) =
      steps-IsWatching between start q (record w { running = true }, rw k refl, f, refl) in
    (record v { trigger = false }, rw (on_watcher, kv) refl, fv, rv)

press-HasKey : (c : Controller) → IsWatching c → HasKey (step (round false true) c)
unfolding step watch
press-HasKey c (w, k, f, r) = (watch false true w, ground arith, ground arith)

-- Where the watcher has not been stopped before the controller is entered, and no debugger shows up
-- before the press, a key press after `__enter__` cancels the act, whatever other threads do while
-- the controller is entered, before the press, and between the press and the reading.
pub key_cancels :
    (c : Controller) (w : Watcher) (between before after : List Action)
    → c.keyboard ≡ some w
    → w.final_stop ≡ false
    → IsQuiet between
    → IsQuiet before
    → (read_state (steps after (step (round false true) (steps before (enter between c))))).0
      ≡ cancelled
key_cancels c w between before after k f q r = HasKey-cancelled _ (
    steps-HasKey after _
      (press-HasKey _ (steps-IsWatching before _ r (enter-IsWatching between c w q k f))))

-- The watcher was stopped and has not seen the key.
abbrev IsStopped : Controller → Type 0
IsStopped c = (w : Watcher) × (c.keyboard ≡ some w) × (w.trigger ≡ false) × (w.final_stop ≡ true)

step-IsStopped : (a : Action) (c : Controller) → IsStopped c → IsStopped (step a c)
unfolding step watch
step-IsStopped do_read c (w, k, t, f) = (w, ground arith, t, f)
step-IsStopped do_pause c (w, k, t, f) = (w, ground arith, t, f)
step-IsStopped do_resume c (w, k, t, f) = (w, ground arith, t, f)
step-IsStopped do_cancel c (w, k, t, f) = (w, ground arith, t, f)
step-IsStopped (round d b) c (w, k, t, f) = (watch d b w, ground arith, ground arith, ground arith)

steps-IsStopped :
    (actions : List Action) (c : Controller) → IsStopped c → IsStopped (steps actions c)
unfolding steps
steps-IsStopped [] c h = h
steps-IsStopped (a ∷ actions) c h = steps-IsStopped actions (step a c) (step-IsStopped a c h)

abbrev IsDead : Controller → Type 0
IsDead c =
    (w : Watcher) × (c.keyboard ≡ some w)
    × (w.trigger ≡ false)
    × (w.final_stop ≡ true)
    × (c.state ≡ active)

abbrev rounds : List (Bool × Bool) → List Action
rounds [] = []
rounds ((debugger, key) ∷ rest) = round debugger key ∷ rounds rest

rounds-IsDead :
    (keys : List (Bool × Bool)) (c : Controller) → IsDead c → IsDead (steps (rounds keys) c)
unfolding steps step watch
rounds-IsDead [] c h = h
rounds-IsDead ((d, b) ∷ keys) c (w, k, t, f, s) =
    rounds-IsDead keys (step (round d b) c)
      (watch d b w, ground arith, ground arith, ground arith, ground arith)

enter-IsDead : (between : List Action) (c : Controller) → IsStopped c → IsDead (enter between c)
unfolding enter
enter-IsDead between c (w, k, t, f) =
    let start = on_watcher enter_watcher c in
    let (v, kv, tv, fv) =
      steps-IsStopped between start (record w { running = true }, rw k refl, t, f) in
    (record v { trigger = false }, rw (on_watcher, kv) refl, refl, fv, refl)

exit-IsStopped : (c : Controller) (w : Watcher) → c.keyboard ≡ some w → IsStopped (exit c)
unfolding exit
exit-IsStopped c w k =
    (record w { trigger = false; final_stop = true; running = false }, rw k refl, refl, refl)

-- `final_stop` is never cleared: once a controller has been left, no key press in a later act
-- cancels that act, whatever other threads do while the controller is entered again.
pub key_ignored_after_exit :
    (c : Controller) (w : Watcher) (between : List Action) (keys : List (Bool × Bool))
    → c.keyboard ≡ some w
    → (read_state (steps (rounds keys) (enter between (exit c)))).0 ≡ active
unfolding read_state
key_ignored_after_exit c w between keys k =
    let (v, kv, t, f, s) =
      rounds-IsDead keys (enter between (exit c))
        (enter-IsDead between (exit c) (exit-IsStopped c w k)) in
    ground arith
