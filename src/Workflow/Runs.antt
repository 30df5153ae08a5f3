-- ===== src/Workflow/Runs.antt =====
-- What becomes of a workflow's run and of the current workflow.
use nova_act.Prelude.{◌≡◌, refl, ◌∙◌, Option, none, some, List, [], ◌∷◌, arith, if◌then◌else◌}
use nova_act.Prelude.Text.{Text, text_eq, text_eq_refl}
use nova_act.Errors.{Result, ok, err}
use nova_act.Workflow.{
  WorkflowBackend, WorkflowRunStatus, succeeded, failed, WorkflowRun, Workflow, WorkflowOptions,
  Service, Context, Body, status_of, with_run, exit, leave, entered, with_workflow, as_current,
  decorated,
}

-- The runs of an account, the last one first, with the status they were given.
abbrev pub Runs : Type 0
Runs = List (Text × Option WorkflowRunStatus)

unfoldable pub set_status : Text → WorkflowRunStatus → Runs → Runs
unfolding text_eq
set_status id status [] = []
set_status id status ((j, s) ∷ runs) =
    let rest = set_status id status runs in
    if text_eq j id then (j, some status) ∷ runs else (j, s) ∷ rest

-- FAILED if an exception left the body, SUCCEEDED if not.
abbrev pub IsStatus : {A : Type 0} → Result A → WorkflowRunStatus → Type 0
IsStatus (ok a) status = status ≡ succeeded
IsStatus (err e) status = status ≡ failed

module _ {S A : Type 0} (service : Service S) where
  -- Whatever a decorated function does, and whether it returns or raises, the current workflow is
  -- what it was before the call.
  pub decorated-current_workflow :
      (options : WorkflowOptions) (f : Body S A) (context : Context S)
      → (decorated service options f context).1.current_workflow ≡ context.current_workflow
  unfolding decorated with_workflow entered exit as_current
  decorated-current_workflow options f context = ground arith

module _ {S A : Type 0} (service : Service S) (runs_of : S → Runs)
    (created : (workflow : Workflow) (s s' : S) (run : WorkflowRun)
      → service.create_workflow_run workflow s ≡ (ok run, s')
      → runs_of s' ≡ (run.workflow_run_id, none) ∷ runs_of s)
    (updated : (backend : WorkflowBackend) (run : WorkflowRun) (status : WorkflowRunStatus) (s : S)
      → ((service.update_workflow_run backend run status s).0 ≡ ok tt)
        × (runs_of (service.update_workflow_run backend run status s).1
            ≡ set_status run.workflow_run_id status (runs_of s))) where
  exit-status :
      (r : Result A) (workflow : Workflow) (run : WorkflowRun) (context : Context S) (old : Runs)
      → runs_of context.world ≡ (run.workflow_run_id, none) ∷ old
      → ((leave service r
            (exit service (with_run service (some run) workflow) (status_of r) context)).0
          ≡ r)
        × (runs_of
              (leave service r
                (exit service (with_run service (some run) workflow) (status_of r) context)).1.world
            ≡ (run.workflow_run_id, some (status_of r)) ∷ old)
  unfolding exit set_status
  exit-status r workflow run context old h =
      let (accepted, recorded) = updated workflow.backend run (status_of r) context.world in
      rw accepted (refl, recorded ∙ rw (h, text_eq_refl run.workflow_run_id) refl)

  status_of-IsStatus : (r : Result A) → IsStatus r (status_of r)
  status_of-IsStatus (ok a) = refl
  status_of-IsStatus (err e) = refl

  -- A run that is created is given one status, FAILED if the body raises and SUCCEEDED if not, and
  -- what the body returns or raises is what leaves the `with` statement, where the service adds a run
  -- that it creates, accepts an update of it, and the body leaves the runs as they are.
  pub with_workflow-IsStatus :
      (workflow : Workflow) (body : Workflow → Body S A) (context : Context S) (run : WorkflowRun)
      (s' : S)
      → service.create_workflow_run workflow context.world ≡ (ok run, s')
      → runs_of
          (body (with_run service (some run) workflow) (record context { world = s' })).1.world
        ≡ runs_of s'
      → ((with_workflow service workflow body context).0
          ≡ (body (with_run service (some run) workflow) (record context { world = s' })).0)
        × ((status : WorkflowRunStatus) × IsStatus
              (body (with_run service (some run) workflow) (record context { world = s' })).0
              status
            × (runs_of (with_workflow service workflow body context).1.world
                ≡ (run.workflow_run_id, some status) ∷ runs_of context.world))
  unfolding with_workflow entered
  with_workflow-IsStatus workflow body context run s' e kept =
      let out = body (with_run service (some run) workflow) (record context { world = s' }) in
      let (value, runs) =
        exit-status out.0 workflow run out.1 (runs_of context.world)
          (kept ∙ created workflow context.world s' run e) in
      rw e (value, (status_of out.0, status_of-IsStatus out.0, runs))
