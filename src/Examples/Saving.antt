-- ===== src/Examples/Saving.antt =====
-- Two processes of the command line tool that register a workflow each.
use nova_act.Prelude.{ℕ, ◌≤◌, ◌≡◌, ◌⊎◌, refl, true, false, none, some, List, [], ◌∷◌, arith}
use nova_act.Prelude.Text.{Text, text, insert}
use nova_act.Errors.{ok}
use nova_act.Cli.State.{
  Event, go, timeout, killed, RegionState, json, Files, Process, changing, finished, dead, run,
  stamped,
}
use nova_act.Cli.Names.{validate_workflow_name}
use nova_act.Cli.Workflows.{WorkflowInfo, Env, new_workflow, create, delete, perform}
use nova_act.Cli.Workflows.Changes.{workflow_in}
use nova_act.Cli.Workflows.Refinement.{abstract_step, Outcome}
use nova_act.Cli.Workflows.Refinement.Methods.{perform-Outcome}
use nova_act.Cli.State.Exclusion.{holders, locks, run-holders, run-abandoned}
use nova_act.Cli.State.Updates.{IsSaved, lost_update}

-- A workflow is its directory here.
abbrev register : Text → RegionState Text → RegionState Text
unfolding insert
register name state = record {
  workflows = insert name (text "/src") state.workflows;
  last_updated = state.last_updated;
  version = state.version;
}

abbrev empty : RegionState Text
empty = record { workflows = []; last_updated = 0; version = text "1.0" }

abbrev start : Files Text
start = record { lock_file = false; state_file = some (json empty) }

abbrev two : List (Process Text)
two = changing (register (text "a")) ∷ changing (register (text "b")) ∷ []

-- The first is killed while it holds the lock; the second waits in vain.
abbrev steps : List (ℕ × Event)
steps = (0, go 1) ∷ (1, go 2) ∷ (0, go 3) ∷ (1, go 4) ∷ (0, killed) ∷ (1, go 5) ∷ (1, timeout) ∷ []

run-holders_example :
    (holders Text (run Text steps two start).0 ≤ locks Text (run Text steps two start).1.lock_file)
    × (holders Text (run Text steps two start).0 ≤ 1)
run-holders_example = run-holders Text steps two start (omega arith)

abbrev left : Files Text
left = record { lock_file = true; state_file = some (json empty) }

run-abandoned_example :
    (run Text
      ((1, go 5) ∷ (1, go 6) ∷ (1, timeout) ∷ [])
      (dead ∷ changing (register (text "b")) ∷ [])
      left).1
    ≡ left
run-abandoned_example =
    run-abandoned Text ((1, go 5) ∷ (1, go 6) ∷ (1, timeout) ∷ [])
      (dead ∷ changing (register (text "b")) ∷ []) left refl refl

-- After both have loaded, the one saves and then the other.
abbrev both_save : List (ℕ × Event)
both_save = (0, go 1) ∷ (0, go 1) ∷ (0, go 1) ∷ (1, go 2) ∷ (1, go 2) ∷ (1, go 2) ∷ []

lost_update_example :
    IsSaved Text
      (λ saved. (saved ≡ register (text "a") empty) ⊎ (saved ≡ register (text "b") empty))
      (some (json empty))
      (run Text ((0, go 1) ∷ (1, go 1) ∷ both_save) two start).1.state_file
lost_update_example =
    lost_update Text (register (text "a")) (register (text "b")) empty 1 1 both_save

-- Both saves succeed, and the first change is gone.
both_saved : run Text ((0, go 1) ∷ (1, go 1) ∷ both_save) two start ≡ (
  finished (ok tt) ∷ finished (ok tt) ∷ [],
  record {
    lock_file = false;
    state_file = some (json (stamped Text 2 (register (text "b") empty)));
  },
)
unfolding run
both_saved = refl

check_out_valid : validate_workflow_name (text "check-out") ≡ ok tt
unfolding validate_workflow_name
check_out_valid = refl

-- A hyphen and a line feed at the end pass.
line_feed_valid : validate_workflow_name (text "check-\n") ≡ ok tt
unfolding validate_workflow_name
line_feed_valid = refl

abbrev account : Env
account = record {
  region = text "us-east-1";
  account_id = text "1234";
  now = 7;
  get_workflow_definition = λ arn. ok tt;
  write = λ state. ok tt;
  resolve = λ path. path;
}

abbrev registered : Files WorkflowInfo
registered = record {
  lock_file = false;
  state_file = some (
      json (record {
        workflows =
            (text "a", new_workflow account (text "a") (text "arn"))
            ∷ (text "b", new_workflow account (text "b") (text "arn"))
            ∷ [];
        last_updated = 0;
        version = text "1.0";
      }));
}

perform-Outcome_example :
    Outcome
      (text "b")
      (abstract_step account (delete (text "a")) (text "b"))
      registered
      (perform account (delete (text "a")) registered)
perform-Outcome_example = perform-Outcome account (text "b") (delete (text "a")) registered

deleted :
    workflow_in (text "a") (perform account (delete (text "a")) registered).1.state_file ≡ none
unfolding perform workflow_in
deleted = refl

abbrev start_empty : Files WorkflowInfo
start_empty = record { lock_file = false; state_file = none }

created : perform account (create (text "check-out") none) start_empty ≡ (
  ok tt,
  record {
    lock_file = false;
    state_file = some (
        json (record {
          workflows =
              (
                text "check-out",
                new_workflow account
                    (text "check-out")
                    (text "arn:aws:nova-act:us-east-1:1234:workflow-definition/check-out"),
              )
              ∷ [];
          last_updated = 7;
          version = text "1.0";
        }));
  },
)
unfolding perform
created = refl
