-- ===== src/Cli/State.antt =====
-- src/nova_act/cli/core/state_manager.py: the workflows of one account and region, kept in a file
-- that several processes of the command line tool read and write, with a lock file for the writes.
-- A process loads the state, changes it and saves it, as the methods of
-- src/nova_act/cli/workflow/workflow_manager.py do; a sequence of steps of the processes says how
-- they interleave. What a workflow is, is a parameter.
pub mod Exclusion
pub mod Updates
use nova_act.Prelude.{
  ℕ, zero, suc, ◌+◌, Bool, true, false, Option, none, some, List, [], ◌∷◌, if◌then◌else◌,
}
use nova_act.Prelude.Text.{Text, text, Dict}
use nova_act.Errors.{Exn, Result, ok, err, plain}
use nova_act.Errors.Classes.{configuration_error}

-- What a process meets in a step: the time, the end of its wait, a failure of the file system, or
-- its own end from outside.
pub data Event : Type 0 where
  go : ℕ → Event
  timeout : Event
  failure : Event
  killed : Event

module _ (Workflow : Type 0) where
  pub record RegionState : Type 0 where
    pub workflows : Dict Workflow
    pub last_updated : ℕ
    pub version : Text

  -- A file that holds a state, or something that cannot be read as one.
  pub data Contents : Type 0 where
    json : RegionState → Contents
    corrupted : Contents

  pub record Files : Type 0 where
    pub lock_file : Bool
    pub state_file : Option Contents

  -- Where a process is: before the load of a change; before the lock is taken; between
  -- `__enter__` and the write; before `__exit__`; at the end.
  pub data Process : Type 0 where
    changing : (RegionState → RegionState) → Process
    waiting : RegionState → Process
    holding : RegionState → Process
    leaving : Result Unit → Process
    finished : Result Unit → Process
    dead : Process

  -- The messages go on with the paths.
  abbrev pub failed : {A : Type 0} → Text → Result A
  failed m = err (plain configuration_error m)

  unfoldable pub get_region_state : ℕ → Option Contents → Result RegionState
  get_region_state now none =
      ok (record { workflows = []; last_updated = now; version = text "1.0" })
  get_region_state now (some (json state)) = ok state
  get_region_state now (some corrupted) = failed (text "State file is corrupted")

  after_load : (RegionState → RegionState) → Result RegionState → Process
  after_load change (ok state) = waiting (change state)
  after_load change (err e) = finished (err e)

  abbrev pub stamped : ℕ → RegionState → RegionState
  stamped now state = record {
    workflows = state.workflows;
    last_updated = now;
    version = state.version;
  }

  -- A round of the loop that waits for the lock.
  unfoldable pub try_lock : RegionState → Files → Process × Files
  try_lock state files =
      if files.lock_file
      then (waiting state, files)
      else (holding state, record { lock_file = true; state_file = files.state_file })

  -- The next step of a process.
  unfoldable pub step : Event → Process → Files → Process × Files
  unfolding get_region_state after_load try_lock
  step killed (finished r) files = (finished r, files)
  step killed p files = (dead, files)
  step (go now) (changing change) files =
      (after_load change (get_region_state now files.state_file), files)
  step (go now) (waiting state) files = try_lock state files
  step (go now) (holding state) files = (
    leaving (ok tt),
    record { lock_file = files.lock_file; state_file = some (json (stamped now state)) },
  )
  step (go now) (leaving r) files =
      (finished r, record { lock_file = false; state_file = files.state_file })
  step timeout (waiting state) files = (finished (failed (text "Could not acquire lock")), files)
  step failure (changing change) files = (finished (failed (text "State file is corrupted")), files)
  step failure (holding state) files =
      (leaving (failed (text "State file could not be written")), files)
  step failure (leaving r) files = (finished r, files)
  step e p files = (p, files)

  -- A step of the process at a place.
  unfoldable pub step_at : ℕ → Event → List Process → Files → List Process × Files
  unfolding step
  step_at i e [] files = ([], files)
  step_at zero e (p ∷ ps) files = let out = step e p files in (out.0 ∷ ps, out.1)
  step_at (suc i) e (p ∷ ps) files = let out = step_at i e ps files in (p ∷ out.0, out.1)

  unfoldable pub run : List (ℕ × Event) → List Process → Files → List Process × Files
  unfolding step_at
  run [] ps files = (ps, files)
  run ((i, e) ∷ steps) ps files = let out = step_at i e ps files in run steps out.0 out.1
