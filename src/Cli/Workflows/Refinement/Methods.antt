-- ===== src/Cli/Workflows/Refinement/Methods.antt =====
-- Each method of the workflow manager against its step.
use nova_act.Prelude.{
  ◌≡◌, refl, sym, ap, ◌∙◌, false, Option, none, some, arith, Bool-cases, inl, inr, if◌then◌else◌,
}
use mathlib.Core.Path.{subst}
use nova_act.Prelude.Text.{Text, text_eq, text_eq→≡, Dict, lookup, insert, lookup-insert}
use nova_act.Errors.{Result, ok, err}
use nova_act.Effect.{M, ◌>>=◌, lift, pure}
use nova_act.Cli.State.{RegionState}
use nova_act.Cli.Names.{validate_workflow_name}
use nova_act.Cli.Workflows.{
  WorkflowInfo, Env, Store, remove, on_workflows, save_region_state, update, get_workflow,
  validate_arn, save_workflow_to_state, create_workflow, alter, update_workflow_definition_arn,
  delete_workflow, update_deployment_state, deployed, is_found, Operation, create, set_arn, delete,
  deploy, target, perform, with_arn, new_workflow,
}
use nova_act.Cli.Workflows.Changes.{workflow_in, lift-Keeps, get_workflow-Keeps, validate_arn-Keeps}
use nova_act.Cli.Workflows.Refinement.{
  map_option, abstract_step, Outcome, lookup-remove, lookup-alter, Steps, kept_first, Steps-pure,
  save-Outcome, loaded-Steps, update-Steps,
}

module _ (env : Env) (j : Text) where
  save_workflow-Steps :
      (name arn : Text)
      → Steps env j
          (λ o. if text_eq name j then some (new_workflow env name arn) else o)
          (save_workflow_to_state env name arn)
  unfolding save_workflow_to_state
  save_workflow-Steps name arn =
      Steps-pure env j (abstract_step env (create name (some arn)) j)
        (update env (on_workflows (insert name (new_workflow env name arn))))
        (new_workflow env name arn)
        (update-Steps env j (abstract_step env (create name (some arn)) j)
          (insert name (new_workflow env name arn))
          (λ m. lookup-insert name j (new_workflow env name arn) m))

  validated :
      {B : Type 0} (g : Option WorkflowInfo → Option WorkflowInfo) (name : Text) (m : M Store B)
      → Steps env j g m
      → Steps env j g (lift (validate_workflow_name name) >>= λ _. m)
  validated g name m h =
      kept_first env j g (lift (validate_workflow_name name)) (λ _. m)
        (lift-Keeps env j (validate_workflow_name name)) (λ _. h)

  create-Steps :
      (name : Text) (arn : Option Text)
      → Steps env j (abstract_step env (create name arn) j) (create_workflow env name arn)
  unfolding create_workflow
  create-Steps name none =
      validated (abstract_step env (create name none) j) name _ (save_workflow-Steps name _)
  create-Steps name (some arn) = validated (abstract_step env (create name (some arn)) j) name _ (
      kept_first env j (abstract_step env (create name (some arn)) j) (validate_arn env name arn) _
        (validate_arn-Keeps env j name arn) (λ _. save_workflow-Steps name arn))

  set_arn-Steps :
      (name arn : Text)
      → Steps env j
          (abstract_step env (set_arn name arn) j)
          (update_workflow_definition_arn env name arn)
  unfolding update_workflow_definition_arn
  set_arn-Steps name arn =
      kept_first env j (abstract_step env (set_arn name arn) j) (get_workflow env name) _
        (get_workflow-Keeps env j name)
        (λ w.
          kept_first env j (abstract_step env (set_arn name arn) j) (validate_arn env name arn) _
            (validate_arn-Keeps env j name arn)
            (λ _.
              Steps-pure env j (abstract_step env (set_arn name arn) j)
                (update env (on_workflows (alter name (with_arn arn)))) (with_arn arn w)
                (update-Steps env j (abstract_step env (set_arn name arn) j)
                  (alter name (with_arn arn)) (λ m. lookup-alter name j (with_arn arn) m))))

  delete-Steps :
      (name : Text) → Steps env j (abstract_step env (delete name) j) (delete_workflow env name)
  unfolding delete_workflow
  delete-Steps name =
      kept_first env j (abstract_step env (delete name) j) (get_workflow env name) _
        (get_workflow-Keeps env j name)
        (λ _.
          update-Steps env j (abstract_step env (delete name) j) (remove name)
            (λ m. lookup-remove name j m))

  absent :
      (name : Text) (f : WorkflowInfo → WorkflowInfo) (m : Dict WorkflowInfo)
      → is_found (lookup name m) ≡ false
      → lookup j m ≡ (if text_eq name j then map_option f (lookup j m) else lookup j m)
  absent name f m n = elim (Bool-cases (text_eq name j)) [
    | inl y ↦
        rw y
          (missing (lookup j m) (subst (λ t. is_found (lookup t m) ≡ false) (text_eq→≡ name j y) n))
    | inr z ↦ rw z refl
  ]
    where
      missing : (o : Option WorkflowInfo) → is_found o ≡ false → o ≡ map_option f o
      missing none e = refl
      missing (some w) e = absurd (ground (arith, e))

  deploy-Steps :
      (name : Text) (f : WorkflowInfo → WorkflowInfo) (state : RegionState WorkflowInfo)
      (files : Store)
      → lookup j state.workflows ≡ workflow_in j files.state_file
      → Outcome j
          (λ o. if text_eq name j then map_option f o else o)
          files
          ((if is_found (lookup name state.workflows)
              then save_region_state env (on_workflows (alter name f) state)
              else pure tt)
            files)
  unfolding on_workflows pure
  deploy-Steps name f state files e = elim (Bool-cases (is_found (lookup name state.workflows))) [
    | inl is ↦ rw is (
        save-Outcome env j (λ o. if text_eq name j then map_option f o else o)
          (on_workflows (alter name f) state) files
          (lookup-alter name j f state.workflows
            ∙ ap (λ o. if text_eq name j then map_option f o else o) e))
    | inr n ↦ rw n (
        sym e
        ∙ (absent name f state.workflows n
            ∙ ap (λ o. if text_eq name j then map_option f o else o) e))
  ]

  -- Every method refines a step on a map from names to workflows: where it returns, what the file
  -- holds for any name is what the step makes of it, and where it raises, what it held before.
  pub perform-Outcome :
      (op : Operation) (files : Store)
      → Outcome j (abstract_step env op j) files (perform env op files)
  unfolding perform update_deployment_state
  perform-Outcome (create name arn) =
      Steps-pure env j (abstract_step env (create name arn) j) (create_workflow env name arn) tt
        (create-Steps name arn)
  perform-Outcome (set_arn name arn) =
      Steps-pure env j (abstract_step env (set_arn name arn) j)
        (update_workflow_definition_arn env name arn) tt (set_arn-Steps name arn)
  perform-Outcome (delete name) = delete-Steps name
  perform-Outcome (deploy name d source_dir build_dir) =
      loaded-Steps env j (abstract_step env (deploy name d source_dir build_dir) j) _
        (deploy-Steps name (deployed env d source_dir build_dir))

  -- At another name, a step changes nothing.
  step_elsewhere :
      (op : Operation) (o : Option WorkflowInfo)
      → text_eq (target op) j ≡ false
      → abstract_step env op j o ≡ o
  step_elsewhere (create name none) o n = rw n refl
  step_elsewhere (create name (some arn)) o n = rw n refl
  step_elsewhere (set_arn name arn) o n = rw n refl
  step_elsewhere (delete name) o n = rw n refl
  step_elsewhere (deploy name d source_dir build_dir) o n = rw n refl

  unchanged :
      {A : Type 0} (g : Option WorkflowInfo → Option WorkflowInfo) (files : Store)
      (out : Result A × Store)
      → ((o : Option WorkflowInfo) → g o ≡ o)
      → Outcome j g files out
      → workflow_in j out.1.state_file ≡ workflow_in j files.state_file
  unchanged g files (ok a, after) same o = o ∙ same (workflow_in j files.state_file)
  unchanged g files (err e, after) same o = o

  -- Whatever a method is given, and whether it returns or raises, the workflows of all other names
  -- are as they were.
  perform-others :
      (op : Operation) (files : Store)
      → text_eq (target op) j ≡ false
      → workflow_in j (perform env op files).1.state_file ≡ workflow_in j files.state_file
  perform-others op files n =
      unchanged (abstract_step env op j) files (perform env op files) (λ o. step_elsewhere op o n)
        (perform-Outcome op files)
