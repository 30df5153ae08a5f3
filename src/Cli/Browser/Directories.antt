-- ===== src/Cli/Browser/Directories.antt =====
-- The directories that are removed, while sessions are found, connected and pruned.
pub mod Calls
use nova_act.Prelude.{
  ℕ, ◌≡◌, refl, sym, Bool, true, false, not, ◌&&◌, Option, none, some, List, [], ◌∷◌, All, arith,
  Bool-cases, inl, inr, if◌then◌else◌,
}
use mathlib.Core.Path.{subst}
use nova_act.Prelude.Text.{Text, text, lookup, Dict}
use nova_act.Errors.{Exn, Result, ok, err, plain, isinstance}
use nova_act.Errors.Classes.{exception, runtime_error}
use nova_act.Effect.{M, ◌>>=◌, ◌>>◌, pure, raise, lift}
use nova_act.Effect.Keeps.{
  Keeps, Any, keeps_rules, Keeps-same, returned_fits, Keeps-if, Keeps-pure, Keeps-raise, Keeps-then,
}
use nova_act.Cli.Browser.Models.{
  SessionState, starting, started, stopping, stopped, failed, SessionInfo,
}
use nova_act.Cli.Browser.Sessions.{
  World, Env, Launch, all_values, merge, keep, failing, remove_lock, touch_lock, unlink, forget,
  write_session_metadata, terminate, handle_failure, after_start, connect, connected, load_existing,
  load_session, remember, found, load_existing_sessions, validate_browser_running, reconnect,
  find_session, get_session, real_pid, is_given, is_failed,
}
use nova_act.Cli.Browser.Pruning.{
  is_profile, profile_path, managed_dir, owned_dir, remove_dir, remove_owned_dir, prune_one,
  prune_all, prune_chosen, select_pruneable, prune, prune_sessions,
}
use nova_act.Cli.Browser.Creating.{
  refuse_existing, check_state, check_existing, check_limit, initialize_session_info, with_options,
  launched, handle_browser_setup_failure, run_launch, after_launch, launch_new_browser, end_browser,
  safety_net, connect_new, create_session, cleanup_failed_session,
}
use nova_act.Cli.Browser.SessionId.{validate_session_id}
use nova_act.Cli.Browser.Closing.{
  cleanup_user_data_dir, profile_text, cleanup_session_files, force_close, finish_close,
  normal_close, close_loaded, after_stop, finish_stopped, from_memory, load_session_for_close,
  close_session,
}

module _ {F : Type 0} (env : Env F) where
  abbrev pub IsManaged : World F → Type 0
  IsManaged w = All (λ dir. env.in_config_dir dir ≡ true) w.removed

  pub keep-IsManaged : (s : SessionInfo F) → Keeps IsManaged Any (keep s)
  unfolding keep
  keep-IsManaged s = record { at = λ w p. (p, tt) }

  pub write-IsManaged : (s : SessionInfo F) → Keeps IsManaged Any (write_session_metadata env s)
  unfolding write_session_metadata
  write-IsManaged s = record { at = λ w p. (p, tt) }

  pub remove_lock-IsManaged : (id : Text) → Keeps IsManaged Any (remove_lock id)
  unfolding remove_lock
  remove_lock-IsManaged id = record { at = λ w p. (p, tt) }

  pub touch_lock-IsManaged : (id : Text) → Keeps IsManaged Any (touch_lock id)
  unfolding touch_lock
  touch_lock-IsManaged id = record { at = λ w p. (p, tt) }

  pub unlink-IsManaged : (id : Text) → Keeps IsManaged Any (unlink id)
  unfolding unlink
  unlink-IsManaged id = record { at = λ w p. (p, tt) }

  pub forget-IsManaged : (id : Text) → Keeps IsManaged Any (forget id)
  unfolding forget
  forget-IsManaged id = record { at = λ w p. (p, tt) }

  pub terminate-IsManaged : (pid : Option ℕ) → Keeps IsManaged Any (terminate env pid)
  unfolding terminate
  terminate-IsManaged none = record { at = λ w p. (p, tt) }
  terminate-IsManaged (some pid) = record { at = λ w p. (p, tt) }

  pub ruleset managed_rules = (
    keeps_rules, keep-IsManaged, write-IsManaged, remove_lock-IsManaged, touch_lock-IsManaged,
    unlink-IsManaged, forget-IsManaged, terminate-IsManaged,
  )

  pub handle_failure-IsManaged :
      (s : SessionInfo F) (message : Text) → Keeps IsManaged Any (handle_failure env s message)
  unfolding handle_failure
  handle_failure-IsManaged s message = search managed_rules

  pub cleanup_session_files-IsManaged :
      (id : Text) → Keeps IsManaged Any (cleanup_session_files env id)
  unfolding cleanup_session_files
  cleanup_session_files-IsManaged id = search managed_rules

  managed_only :
      (b : Bool) (e dir : Text)
      → (if b then none else if env.in_config_dir e then some e else none) ≡ some dir
      → env.in_config_dir dir ≡ true
  managed_only b e dir h = grind (arith, h)

  -- A directory that goes lies under the tool's own directory.
  managed :
      (profile data_dir : Option Text) (dir : Text)
      → managed_dir env profile data_dir ≡ some dir
      → env.in_config_dir dir ≡ true
  unfolding managed_dir
  managed profile none dir h = absurd (ground (arith, h))
  managed profile (some []) dir h = absurd (ground (arith, h))
  managed profile (some (c ∷ rest)) dir h =
      managed_only (is_profile env profile (c ∷ rest)) (c ∷ rest) dir h

  pub remove-IsManaged :
      (dir : Option Text)
      → ((d : Text) → dir ≡ some d → env.in_config_dir d ≡ true)
      → Keeps IsManaged Any (remove_dir env dir)
  remove-IsManaged none h = record { at = λ w p. (p, tt) }
  remove-IsManaged (some d) h = record { at = λ w p. ((h d refl, p), tt) }

  pub cleanup_user_data_dir-IsManaged :
      (s : SessionInfo F) → Keeps IsManaged Any (cleanup_user_data_dir env s)
  unfolding cleanup_user_data_dir
  cleanup_user_data_dir-IsManaged s =
      remove-IsManaged (managed_dir env (profile_text env s) s.user_data_dir)
        (managed (profile_text env s) s.user_data_dir)

  remove_owned_dir-IsManaged : (s : SessionInfo F) → Keeps IsManaged Any (remove_owned_dir env s)
  unfolding remove_owned_dir owned_dir
  remove_owned_dir-IsManaged s =
      remove-IsManaged (managed_dir env (profile_path env s) s.user_data_dir)
        (managed (profile_path env s) s.user_data_dir)

  pub prune_one-IsManaged : (s : SessionInfo F) → Keeps IsManaged Any (prune_one env s)
  unfolding prune_one
  prune_one-IsManaged s = search (managed_rules, remove_owned_dir-IsManaged)

  pub prune_all-IsManaged : (ss : List (SessionInfo F)) → Keeps IsManaged Any (prune_all env ss)
  unfolding prune_all
  prune_all-IsManaged [] = search managed_rules
  prune_all-IsManaged (s ∷ ss) =
      search (managed_rules, prune_one-IsManaged s, prune_all-IsManaged ss)

  pub connect-IsManaged :
      (s : SessionInfo F) (page : Option Text) (message : Text)
      → Keeps IsManaged Any (connect env s page message)
  unfolding connect
  connect-IsManaged s page message = started (env.start s page)
    where
      started : (r : Result ℕ) → Keeps IsManaged Any (after_start env s message r)
      started (ok instance') = search managed_rules
      started (err e) = search (managed_rules, handle_failure-IsManaged)

  pub validate_browser_running-same :
      (s : SessionInfo F) (w : World F) → (validate_browser_running env s w).1 ≡ w
  unfolding validate_browser_running
  validate_browser_running-same s w = ground arith

  pub load_session-same : (id : Text) (w : World F) → (load_session env id w).1 ≡ w
  unfolding load_session
  load_session-same id w = ground arith

  pub reconnect-IsManaged : (s : SessionInfo F) → Keeps IsManaged Any (reconnect env s)
  unfolding reconnect
  reconnect-IsManaged s = search (
    managed_rules,
    Keeps-same (validate_browser_running env s) (validate_browser_running-same s),
    connect-IsManaged,
  )

  pub found-IsManaged :
      (id : Text) (r : Option (SessionInfo F)) → Keeps IsManaged Any (found env id r)
  unfolding found remember
  found-IsManaged id none =
      Keeps-then (load_session env id) (remember env id)
        (Keeps-same (load_session env id) (load_session-same id))
        (λ s. record { at = λ w p. (p, tt) })
  found-IsManaged id (some s) = search managed_rules

  pub get_session-IsManaged : (id : Text) → Keeps IsManaged Any (get_session env id)
  unfolding get_session find_session
  get_session-IsManaged id =
      Keeps-then (find_session env id) (reconnect env)
        (record { at = λ w p. (found-IsManaged id (lookup id w.sessions)).at w p })
        reconnect-IsManaged

  load_existing-removed : (w : World F) → (load_existing env w).1.removed ≡ w.removed
  unfolding load_existing
  load_existing-removed w = ground arith

  pub load_existing-IsManaged : Keeps IsManaged Any (load_existing env)
  load_existing-IsManaged = record {
    at = λ w p. (
      subst (All (λ dir. env.in_config_dir dir ≡ true)) (sym (load_existing-removed w)) p,
      returned_fits (load_existing env w).0,
    );
  }

  pub chosen-IsManaged :
      (dry_run : Bool) (ss : List (SessionInfo F))
      → Keeps IsManaged Any (prune_chosen env dry_run ss)
  unfolding prune_chosen
  chosen-IsManaged true ss = search managed_rules
  chosen-IsManaged false ss = search (managed_rules, prune_all-IsManaged)

  pub prune_sessions-IsManaged :
      (ignore_ttl dry_run : Bool) → Keeps IsManaged Any (prune_sessions env ignore_ttl dry_run)
  unfolding prune_sessions prune
  prune_sessions-IsManaged ignore_ttl dry_run =
      Keeps-then (load_existing env) (λ _. prune env ignore_ttl dry_run) load_existing-IsManaged
        (λ _. record {
          at = λ w p.
              (chosen-IsManaged dry_run
                  (select_pruneable env ignore_ttl w (all_values w.sessions))).at
                w p;
        })
