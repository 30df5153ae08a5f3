-- ===== src/Workflow/Authentication.antt =====
-- Which service a workflow is sent to.
use nova_act.Prelude.{◌≡◌, true, false, Option, none, some, arith}
use nova_act.Prelude.Text.{Text, Dict}
use nova_act.Errors.{ok}
use nova_act.Workflow.{
  WorkflowBackend, starburst, sunburst, Service, session_kwargs, default_workflow_defn_name,
  check_authentication, made, make, initialize_backend,
}

-- Why a workflow may be sent to a service, under a name.
abbrev pub IsChosen :
    {S : Type 0}
    → Service S
    → Option (Dict Text)
    → Option Text
    → Option Text
    → Text
    → WorkflowBackend
    → Type 0
IsChosen service (some kwargs) (some key) name n backend = ⊥
IsChosen service (some kwargs) none name n backend =
    (name ≡ some n) × (backend ≡ starburst (session_kwargs (some kwargs)))
IsChosen service none (some key) name n backend =
    (n ≡ default_workflow_defn_name) × (backend ≡ sunburst key)
IsChosen service none none name n backend =
    (name ≡ some n)
    × (backend ≡ starburst (session_kwargs none))
    × (service.has_env_api_key ≡ false)
    × (service.has_any_aws_credentials ≡ true)

module _ {S : Type 0} (service : Service S) where
  made-ok :
      (name n : Text) (chosen backend : WorkflowBackend)
      → made service name chosen ≡ ok (n, backend)
      → (name ≡ n) × (chosen ≡ backend)
  unfolding made
  made-ok name n chosen backend h = ground (arith, h)

  -- A backend is made only where one way to authenticate is given: an API key that is passed, under
  -- the default name, or else AWS, under the name that is passed; and with neither passed, only where
  -- no API key is in the environment and AWS credentials are found.
  pub initialize_backend-IsChosen :
      (kwargs : Option (Dict Text)) (key name : Option Text) (n : Text) (backend : WorkflowBackend)
      → initialize_backend service kwargs key name ≡ ok (n, backend)
      → IsChosen service kwargs key name n backend
  unfolding initialize_backend check_authentication make made
  initialize_backend-IsChosen (some kwargs) (some key) name n backend h = ground (arith, h)
  initialize_backend-IsChosen (some kwargs) none none n backend h = ground (arith, h)
  initialize_backend-IsChosen (some kwargs) none (some name) n backend h = ground (arith, h)
  initialize_backend-IsChosen none (some key) name n backend h = ground (arith, h)
  initialize_backend-IsChosen none none none n backend h = ground (arith, h)
  initialize_backend-IsChosen none none (some name) n backend h = ground (arith, h)
