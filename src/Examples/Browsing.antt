-- ===== src/Examples/Browsing.antt =====
-- The browser sessions of a command line tool on a small machine.
use nova_act.Prelude.{ℕ, ◌≡◌, refl, true, false, none, some, List, [], ◌∷◌, All, if◌then◌else◌}
use nova_act.Prelude.Text.{Text, text, text_eq, starts_with, lookup}
use nova_act.Errors.{Result, ok, err, plain}
use nova_act.Errors.Classes.{value_error, session_limit_reached}
use nova_act.Effect.Keeps.{OnReturn}
use nova_act.Json.{end}
use nova_act.PathValidator.{has_dot_dot}
use nova_act.Cli.Browser.Models.{
  failed, SessionInfo, BrowserOptions, Formats, Processes, is_active, to_dict,
  reconstruct_session_from_metadata,
}
use nova_act.Cli.Browser.Models.RoundTrip.{reloaded, reconstruct-to_dict}
use nova_act.Cli.Browser.SessionId.{validate_session_id}
use nova_act.Cli.Browser.SessionId.Safe.{IsNearlyName, validate_session_id-IsNearlyName}
use nova_act.Cli.Browser.Sessions.{World, Env, all_values}
use nova_act.Cli.Browser.Pruning.{select_pruneable, results_of, prune, prune_sessions}
use nova_act.Cli.Browser.Pruning.Effect.{reports, chosen, prune-dry_run}
use nova_act.Cli.Browser.Creating.{initialize_session_info, create_session}
use nova_act.Cli.Browser.Creating.Limit.{limit_of, IsWithin, create_session-IsWithin}
use nova_act.Cli.Browser.Lifecycle.{Call, create, close, prune as prune_them, after_all}
use nova_act.Cli.Browser.Directories.{IsManaged}
use nova_act.Cli.Browser.Directories.Calls.{after_all-IsManaged}
use nova_act.Cli.Browser.Lifecycle.Starting.{initialize-prune}
use nova_act.Examples.Interpreting.{numbers}

-- A time is one character.
abbrev from_character : Text → Result ℕ
from_character (t ∷ []) = ok t
from_character s = err (plain value_error (text "Invalid isoformat string"))

abbrev formats : Formats ℕ
formats = record {
  numbers = numbers;
  isoformat = λ t. t ∷ [];
  fromisoformat = from_character;
  truncate = λ x. ok x;
}

abbrev idle : Processes
idle = record { pid_exists = λ pid. false; is_running = λ pid. false }

abbrev busy : Processes
busy = record { pid_exists = λ pid. true; is_running = λ pid. true }

abbrev machine : Env ℕ
machine = record {
  formats = formats;
  now = 100;
  launch = λ id options ps. (
    ok (record { pid = 7; ws_url = text "ws://a"; port = 9222; user_data_dir = text "/cli/a" }),
    busy,
  );
  terminate = λ pid ps. idle;
  start = λ info page. ok 1;
  stop = λ instance'. ok tt;
  in_config_dir = λ dir. starts_with dir (text "/cli/");
  same_path = text_eq;
}

abbrev blank : World ℕ
blank = record { sessions = []; disk = []; locks = []; removed = []; processes = idle }

abbrev options : BrowserOptions
options = record {
  headless = true;
  headed = false;
  executable_path = none;
  profile_path = none;
  ignore_https_errors = true;
  launch_args = [];
  auth_config = none;
  use_default_chrome = false;
  user_data_dir = none;
}

abbrev broken : SessionInfo ℕ
broken = record {
  session_id = text "b";
  state = failed;
  nova_act_instance = none;
  created_at = 1;
  browser_pid = some 7;
  user_data_dir = some (text "/cli/b");
  last_used = some 2;
  cdp_endpoint = none;
  cdp_port = none;
  error_message = some (text "lost");
  browser_options_meta = end;
  auth_config = none;
  active_tab_index = 0;
}

reconstruct-to_dict_example :
    reconstruct_session_from_metadata formats busy (to_dict formats.isoformat broken)
    ≡ ok (reloaded formats busy broken)
reconstruct-to_dict_example =
    reconstruct-to_dict formats busy broken (λ t. refl) (λ t. (t, [], refl))

create_session-IsWithin_example :
    OnReturn
      (IsWithin (limit_of (some 1)))
      (create_session machine (text "a") none options (some 1) blank)
create_session-IsWithin_example =
    create_session-IsWithin machine (text "a") none options (some 1) blank

abbrev calls : List Call
calls = create (text "a") none options none ∷ close (text "a") true ∷ prune_them true false ∷ []

after_all-IsManaged_example : IsManaged machine (after_all machine calls blank)
after_all-IsManaged_example = after_all-IsManaged machine calls blank tt

abbrev after_failure : World ℕ
after_failure = record blank { sessions = (text "b", broken) ∷ []; locks = text "b" ∷ [] }

prune-dry_run_example :
    (prune machine false true after_failure
      ≡ (ok (results_of machine (chosen machine false after_failure)), after_failure))
    × ((prune machine false false after_failure).0
        ≡ ok (results_of machine (chosen machine false after_failure)))
    × (lookup (text "b") (prune machine false false after_failure).1.disk ≡ (
        if reports (text "b") (results_of machine (chosen machine false after_failure))
        then none
        else lookup (text "b") after_failure.disk))
    × (lookup (text "b") (prune machine false false after_failure).1.sessions ≡ (
        if reports (text "b") (results_of machine (chosen machine false after_failure))
        then none
        else lookup (text "b") after_failure.sessions))
    × All (λ s. is_active s.state ≡ false) (chosen machine false after_failure)
prune-dry_run_example = prune-dry_run machine false (text "b") after_failure

initialize-prune_example :
    lookup
      (text "a")
      (prune_sessions machine false false
        (record (initialize_session_info machine
          (text "a")
          (record blank { sessions = []; disk = [] })).1 { sessions = [] })).1.disk
    ≡ none
initialize-prune_example =
    initialize-prune machine (λ t. refl) (λ t. (t, [], refl)) (text "a") blank

valid : validate_session_id (text "my.session-1") ≡ ok tt
unfolding validate_session_id
valid = refl

validate_session_id-IsNearlyName_example :
    (has_dot_dot (text "my.session-1") ≡ false) × IsNearlyName (text "my.session-1")
validate_session_id-IsNearlyName_example =
    validate_session_id-IsNearlyName (text "my.session-1") valid

-- A line feed at the end passes, and two do not.
line_feed_valid : validate_session_id (text "a\n") ≡ ok tt
unfolding validate_session_id
line_feed_valid = refl

created : (create_session machine (text "a") none options (some 1) blank).1.locks ≡ text "a" ∷ []
unfolding create_session
created = refl

refused :
    (create_session machine (text "a") none options (some 0) blank).0
    ≡ err (plain session_limit_reached (text "Maximum active sessions reached"))
unfolding create_session
refused = refl

closed : (after_all machine calls blank).removed ≡ text "/cli/a" ∷ []
unfolding after_all starts_with
closed = refl

dropped : reports (text "b") (results_of machine (chosen machine false after_failure)) ≡ true
unfolding reports select_pruneable all_values results_of
dropped = refl
