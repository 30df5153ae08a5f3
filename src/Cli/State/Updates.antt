-- ===== src/Cli/State/Updates.antt =====
-- What becomes of changes of the same state: the methods load it before they take the lock.
use nova_act.Prelude.{
  ℕ, zero, suc, ◌≡◌, refl, ◌⊎◌, false, Option, some, List, [], ◌∷◌, Bool-cases, inl, inr,
}
use nova_act.Cli.State.{
  Event, go, timeout, failure, killed, RegionState, Contents, json, Files, Process, changing,
  waiting, holding, leaving, finished, dead, step, step_at, run, try_lock, stamped,
}

-- The state file is as it was, or holds a state of a kind as it was saved at some time.
abbrev pub IsSaved :
    (Workflow : Type 0)
    → (RegionState Workflow → Type 0)
    → Option (Contents Workflow)
    → Option (Contents Workflow)
    → Type 0
IsSaved Workflow P old file =
    (file ≡ old)
    ⊎ ((state : RegionState Workflow) × (now : ℕ) × P state
        × (file ≡ some (json (stamped Workflow now state))))

module _ {Workflow : Type 0} (P : RegionState Workflow → Type 0)
    (old : Option (Contents Workflow)) where
  -- A process that has loaded, with a state of that kind to save.
  abbrev Saves : Process Workflow → Type 0
  Saves (changing change) = ⊥
  Saves (waiting state) = P state
  Saves (holding state) = P state
  Saves _ = Unit

  abbrev AllSave : List (Process Workflow) → Type 0
  AllSave [] = Unit
  AllSave (p ∷ ps) = Saves p × AllSave ps

  abbrev Kept : Process Workflow × Files Workflow → Type 0
  Kept (p, files) = Saves p × IsSaved Workflow P old files.state_file

  abbrev AllKept : List (Process Workflow) × Files Workflow → Type 0
  AllKept (ps, files) = AllSave ps × IsSaved Workflow P old files.state_file

  try_lock-Kept :
      (state : RegionState Workflow) (files : Files Workflow)
      → P state
      → IsSaved Workflow P old files.state_file
      → Kept (try_lock Workflow state files)
  unfolding try_lock
  try_lock-Kept state files h f = elim (Bool-cases files.lock_file) [
    | inl e ↦ rw e (h, f)
    | inr n ↦ rw n (h, f)
  ]

  step-Kept :
      (e : Event) (p : Process Workflow) (files : Files Workflow)
      → Saves p
      → IsSaved Workflow P old files.state_file
      → Kept (step Workflow e p files)
  unfolding step
  step-Kept e (changing change) files h f = absurd h
  step-Kept killed (waiting state) files h f = (tt, f)
  step-Kept killed (holding state) files h f = (tt, f)
  step-Kept killed (leaving r) files h f = (tt, f)
  step-Kept killed (finished r) files h f = (tt, f)
  step-Kept killed dead files h f = (tt, f)
  step-Kept (go now) (waiting state) files h f = try_lock-Kept state files h f
  step-Kept (go now) (holding state) files h f = (tt, inr (state, now, h, refl))
  step-Kept (go now) (leaving r) files h f = (tt, f)
  step-Kept (go now) (finished r) files h f = (tt, f)
  step-Kept (go now) dead files h f = (tt, f)
  step-Kept timeout (waiting state) files h f = (tt, f)
  step-Kept timeout (holding state) files h f = (h, f)
  step-Kept timeout (leaving r) files h f = (tt, f)
  step-Kept timeout (finished r) files h f = (tt, f)
  step-Kept timeout dead files h f = (tt, f)
  step-Kept failure (waiting state) files h f = (h, f)
  step-Kept failure (holding state) files h f = (tt, f)
  step-Kept failure (leaving r) files h f = (tt, f)
  step-Kept failure (finished r) files h f = (tt, f)
  step-Kept failure dead files h f = (tt, f)

  step_at-Kept :
      (i : ℕ) (e : Event) (ps : List (Process Workflow)) (files : Files Workflow)
      → AllSave ps
      → IsSaved Workflow P old files.state_file
      → AllKept (step_at Workflow i e ps files)
  unfolding step_at
  step_at-Kept i e [] files h f = (tt, f)
  step_at-Kept zero e (p ∷ ps) files h f =
      let (saves, file) = step-Kept e p files h.0 f in ((saves, h.1), file)
  step_at-Kept (suc i) e (p ∷ ps) files h f =
      let (saves, file) = step_at-Kept i e ps files h.1 f in ((h.0, saves), file)

  run-Kept :
      (steps : List (ℕ × Event)) (ps : List (Process Workflow)) (files : Files Workflow)
      → AllSave ps
      → IsSaved Workflow P old files.state_file
      → IsSaved Workflow P old (run Workflow steps ps files).1.state_file
  unfolding run
  run-Kept [] ps files h f = f
  run-Kept ((i, e) ∷ steps) ps files h f =
      let (saves, file) = step_at-Kept i e ps files h f in run-Kept steps _ _ saves file

-- Where two processes have loaded the same state before either saves it, whatever steps follow, the
-- state file holds that state or it with one of the two changes, saved at some time: never one
-- change on top of the other, also where both saves succeed.
pub lost_update :
    (Workflow : Type 0) (change other : RegionState Workflow → RegionState Workflow)
    (state : RegionState Workflow) (t u : ℕ) (steps : List (ℕ × Event))
    → IsSaved Workflow
        (λ saved. (saved ≡ change state) ⊎ (saved ≡ other state))
        (some (json state))
        (run Workflow
          ((0, go t) ∷ (1, go u) ∷ steps)
          (changing change ∷ changing other ∷ [])
          (record { lock_file = false; state_file = some (json state) })).1.state_file
unfolding run
lost_update Workflow change other state t u steps =
    run-Kept (λ saved. (saved ≡ change state) ⊎ (saved ≡ other state)) (some (json state)) steps
      (waiting (change state) ∷ waiting (other state) ∷ [])
      (record { lock_file = false; state_file = some (json state) }) (inl refl, (inr refl, tt))
      (inl refl)
