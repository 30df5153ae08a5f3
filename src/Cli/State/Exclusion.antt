-- ===== src/Cli/State/Exclusion.antt =====
-- What the lock file gives, however the processes interleave.
use nova_act.Prelude.{
  ℕ, zero, suc, ◌+◌, ◌≤◌, ◌≡◌, refl, ap, ◌∙◌, Bool, true, false, List, [], ◌∷◌, arith, Bool-cases,
  inl, inr,
}
use nova_act.Errors.{Result, ok, err}
use nova_act.Cli.State.{
  Event, go, timeout, failure, killed, RegionState, Files, Process, changing, waiting, holding,
  leaving, finished, dead, step, step_at, run, try_lock, after_load, get_region_state,
}

module _ (Workflow : Type 0) where
  -- One for a process between the taking of the lock and its release.
  abbrev pub holds : Process Workflow → ℕ
  holds (holding state) = 1
  holds (leaving r) = 1
  holds p = 0

  abbrev pub holders : List (Process Workflow) → ℕ
  holders [] = 0
  holders (p ∷ ps) = holds p + holders ps

  abbrev pub locks : Bool → ℕ
  locks true = 1
  locks false = 0

  locks_le : (b : Bool) → locks b ≤ 1
  locks_le true = omega arith
  locks_le false = omega arith

  after_load-holds :
      (change : RegionState Workflow → RegionState Workflow) (r : Result (RegionState Workflow))
      → holds (after_load Workflow change r) ≡ 0
  unfolding after_load
  after_load-holds change (ok state) = refl
  after_load-holds change (err e) = refl

  try_lock-holds :
      (state : RegionState Workflow) (files : Files Workflow) (n : ℕ)
      → 0 + n ≤ locks files.lock_file
      → holds (try_lock Workflow state files).0 + n
        ≤ locks (try_lock Workflow state files).1.lock_file
  unfolding try_lock
  try_lock-holds state files n h = elim (Bool-cases files.lock_file) [
    | inl e ↦ rw e (rw e at h)
    | inr f ↦ rw f (omega (arith, rw f at h))
  ]

  -- A step keeps the count of the holders, with others beside the process, within the lock.
  step-holds :
      (e : Event) (p : Process Workflow) (files : Files Workflow) (n : ℕ)
      → holds p + n ≤ locks files.lock_file
      → holds (step Workflow e p files).0 + n ≤ locks (step Workflow e p files).1.lock_file
  unfolding step
  step-holds killed (finished r) files n h = h
  step-holds killed (changing change) files n h = h
  step-holds killed (waiting state) files n h = h
  step-holds killed (holding state) files n h = omega (arith, h)
  step-holds killed (leaving r) files n h = omega (arith, h)
  step-holds killed dead files n h = h
  step-holds (go now) (changing change) files n h =
      rw (after_load-holds change (get_region_state Workflow now files.state_file)) h
  step-holds (go now) (waiting state) files n h = try_lock-holds state files n h
  step-holds (go now) (holding state) files n h = h
  step-holds (go now) (leaving r) files n h = omega (arith, h, locks_le files.lock_file)
  step-holds (go now) (finished r) files n h = h
  step-holds (go now) dead files n h = h
  step-holds timeout (changing change) files n h = h
  step-holds timeout (waiting state) files n h = h
  step-holds timeout (holding state) files n h = h
  step-holds timeout (leaving r) files n h = h
  step-holds timeout (finished r) files n h = h
  step-holds timeout dead files n h = h
  step-holds failure (changing change) files n h = h
  step-holds failure (waiting state) files n h = h
  step-holds failure (holding state) files n h = h
  step-holds failure (leaving r) files n h = omega (arith, h)
  step-holds failure (finished r) files n h = h
  step-holds failure dead files n h = h

  step_at-holds :
      (i : ℕ) (e : Event) (ps : List (Process Workflow)) (files : Files Workflow) (n : ℕ)
      → n + holders ps ≤ locks files.lock_file
      → n + holders (step_at Workflow i e ps files).0
        ≤ locks (step_at Workflow i e ps files).1.lock_file
  unfolding step_at
  step_at-holds i e [] files n h = h
  step_at-holds zero e (p ∷ ps) files n h =
      omega (arith, step-holds e p files (n + holders ps) (omega (arith, h)))
  step_at-holds (suc i) e (p ∷ ps) files n h =
      omega (arith, step_at-holds i e ps files (n + holds p) (omega (arith, h)))

  -- However the processes interleave, fail or are killed, at most one of them is at a time between
  -- taking the lock and giving it back, and the lock file stands as long as one is, provided this
  -- holds at the start.
  pub run-holders :
      (steps : List (ℕ × Event)) (ps : List (Process Workflow)) (files : Files Workflow)
      → holders ps ≤ locks files.lock_file
      → (holders (run Workflow steps ps files).0 ≤ locks (run Workflow steps ps files).1.lock_file)
        × (holders (run Workflow steps ps files).0 ≤ 1)
  unfolding run
  run-holders [] ps files h = (h, omega (arith, h, locks_le files.lock_file))
  run-holders ((i, e) ∷ steps) ps files h =
      run-holders steps _ _ (omega (arith, step_at-holds i e ps files 0 (omega (arith, h))))

  try_lock-abandoned :
      (state : RegionState Workflow) (files : Files Workflow)
      → files.lock_file ≡ true
      → try_lock Workflow state files ≡ (waiting state, files)
  unfolding try_lock
  try_lock-abandoned state files l = rw l refl

  step-abandoned :
      (e : Event) (p : Process Workflow) (files : Files Workflow)
      → files.lock_file ≡ true
      → holds p ≡ 0
      → (holds (step Workflow e p files).0 ≡ 0) × ((step Workflow e p files).1 ≡ files)
  unfolding step
  step-abandoned e (holding state) files l h = absurd (omega (arith, h))
  step-abandoned e (leaving r) files l h = absurd (omega (arith, h))
  step-abandoned killed (changing change) files l h = (refl, refl)
  step-abandoned killed (waiting state) files l h = (refl, refl)
  step-abandoned killed (finished r) files l h = (refl, refl)
  step-abandoned killed dead files l h = (refl, refl)
  step-abandoned (go now) (changing change) files l h =
      (after_load-holds change (get_region_state Workflow now files.state_file), refl)
  step-abandoned (go now) (waiting state) files l h = (
    ap (λ out. holds out.0) (try_lock-abandoned state files l),
    ap (λ out. out.1) (try_lock-abandoned state files l),
  )
  step-abandoned (go now) (finished r) files l h = (refl, refl)
  step-abandoned (go now) dead files l h = (refl, refl)
  step-abandoned timeout (changing change) files l h = (refl, refl)
  step-abandoned timeout (waiting state) files l h = (refl, refl)
  step-abandoned timeout (finished r) files l h = (refl, refl)
  step-abandoned timeout dead files l h = (refl, refl)
  step-abandoned failure (changing change) files l h = (refl, refl)
  step-abandoned failure (waiting state) files l h = (refl, refl)
  step-abandoned failure (finished r) files l h = (refl, refl)
  step-abandoned failure dead files l h = (refl, refl)

  step_at-abandoned :
      (i : ℕ) (e : Event) (ps : List (Process Workflow)) (files : Files Workflow)
      → files.lock_file ≡ true
      → holders ps ≡ 0
      → (holders (step_at Workflow i e ps files).0 ≡ 0)
        × ((step_at Workflow i e ps files).1 ≡ files)
  unfolding step_at
  step_at-abandoned i e [] files l h = (refl, refl)
  step_at-abandoned zero e (p ∷ ps) files l h =
      let next = step-abandoned e p files l (omega (arith, h)) in (omega (arith, next.0, h), next.1)
  step_at-abandoned (suc i) e (p ∷ ps) files l h =
      let next = step_at-abandoned i e ps files l (omega (arith, h)) in
      (omega (arith, next.0, h), next.1)

  -- A lock file that no process holds, as one that was killed leaves it, is never removed: from
  -- there on no sequence of steps changes the files, so no state is ever saved again.
  pub run-abandoned :
      (steps : List (ℕ × Event)) (ps : List (Process Workflow)) (files : Files Workflow)
      → files.lock_file ≡ true
      → holders ps ≡ 0
      → (run Workflow steps ps files).1 ≡ files
  unfolding run
  run-abandoned [] ps files l h = refl
  run-abandoned ((i, e) ∷ steps) ps files l h =
      let next = step_at-abandoned i e ps files l h in
      run-abandoned steps _ _ (ap (λ f. f.lock_file) next.1 ∙ l) next.0 ∙ next.1
