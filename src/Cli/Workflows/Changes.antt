-- ===== src/Cli/Workflows/Changes.antt =====
-- The parts of the methods that only read.
use nova_act.Prelude.{◌≡◌, refl, ◌∙◌, Option, none, some}
use nova_act.Prelude.Text.{Text, lookup}
use nova_act.Errors.{Result, ok, err}
use nova_act.Effect.{M, ◌>>=◌, lift, pure, continue}
use nova_act.Cli.State.{Contents, json, corrupted}
use nova_act.Cli.Names.{validate_workflow_name_matches_arn}
use nova_act.Cli.Workflows.{
  not_in_aws, WorkflowInfo, Env, Store, load, found, get_workflow, validate_arn,
}

-- The workflow of a name in a store; a file that cannot be read has none.
unfoldable pub workflow_in : Text → Option (Contents WorkflowInfo) → Option WorkflowInfo
workflow_in j none = none
workflow_in j (some (json state)) = lookup j state.workflows
workflow_in j (some corrupted) = none

module _ (env : Env) (j : Text) where
  abbrev pub Keeps : {A : Type 0} → M Store A → Type 0
  Keeps m = (files : Store) → workflow_in j (m files).1.state_file ≡ workflow_in j files.state_file

  continue-Keeps :
      {A B : Type 0} (f : A → M Store B)
      → ((a : A) → Keeps (f a))
      → (out : Result A × Store)
      → workflow_in j (continue f out).1.state_file ≡ workflow_in j out.1.state_file
  continue-Keeps f h (ok a, files) = h a files
  continue-Keeps f h (err e, files) = refl

  bind-Keeps :
      {A B : Type 0} (m : M Store A) (f : A → M Store B)
      → Keeps m
      → ((a : A) → Keeps (f a))
      → Keeps (m >>= f)
  unfolding ◌>>=◌
  bind-Keeps m f k h files = continue-Keeps f h (m files) ∙ k files

  pub lift-Keeps : {A : Type 0} (r : Result A) → Keeps (lift r)
  unfolding lift
  lift-Keeps r files = refl

  pure-Keeps : {A : Type 0} (a : A) → Keeps (pure a)
  unfolding pure
  pure-Keeps a files = refl

  load-Keeps : Keeps (load env)
  unfolding load
  load-Keeps files = refl

  pub get_workflow-Keeps : (name : Text) → Keeps (get_workflow env name)
  unfolding get_workflow
  get_workflow-Keeps name =
      bind-Keeps (load env) _ load-Keeps
        (λ state. lift-Keeps (found name (lookup name state.workflows)))

  pub validate_arn-Keeps : (name arn : Text) → Keeps (validate_arn env name arn)
  unfolding validate_arn
  validate_arn-Keeps name arn =
      bind-Keeps (lift (validate_workflow_name_matches_arn name arn)) _
        (lift-Keeps (validate_workflow_name_matches_arn name arn))
        (λ u. lift-Keeps (not_in_aws (env.get_workflow_definition arn)))
