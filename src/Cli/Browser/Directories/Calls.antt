-- ===== src/Cli/Browser/Directories/Calls.antt =====
-- The directories that are removed, by any sequence of calls.
use nova_act.Prelude.{
  ℕ, ◌≡◌, Bool, true, false, not, ◌&&◌, Option, none, some, List, [], ◌∷◌, arith, Bool-cases, inl,
  inr,
}
use nova_act.Prelude.Text.{Text, text, lookup}
use nova_act.Errors.{Exn, Result, ok, err}
use nova_act.Effect.{◌>>=◌, ◌>>◌, pure}
use nova_act.Effect.Keeps.{Keeps, Any, Keeps-same, returned_fits, Keeps-then}
use nova_act.Cli.Browser.Models.{
  SessionState, starting, started, stopping, stopped, failed, SessionInfo, BrowserOptions,
}
use nova_act.Cli.Browser.Sessions.{
  World, Env, Launch, write_session_metadata, connect, load_session, real_pid, is_given, is_failed,
}
use nova_act.Cli.Browser.Creating.{
  refuse_existing, check_state, check_existing, check_limit, initialize_session_info,
  handle_browser_setup_failure, run_launch, after_launch, launch_new_browser, setup_browser,
  end_browser, safety_net, connect_new, create_session, cleanup_failed_session,
}
use nova_act.Cli.Browser.Closing.{
  force_close, finish_close, normal_close, close_loaded, after_stop, finish_stopped, from_memory,
  load_session_for_close, close_session,
}
use nova_act.Cli.Browser.Lifecycle.{Call, create, get, close, prune, after, after_all}
use nova_act.Cli.Browser.Directories.{
  IsManaged, cleanup_session_files-IsManaged, cleanup_user_data_dir-IsManaged, connect-IsManaged,
  get_session-IsManaged, load_existing-IsManaged, load_session-same, managed_rules,
  prune_sessions-IsManaged,
}

module _ {F : Type 0} (env : Env F) where
  check_existing-IsManaged :
      (r : Option (SessionInfo F)) → Keeps (IsManaged env) Any (check_existing env r)
  unfolding check_existing
  check_existing-IsManaged none = search managed_rules
  check_existing-IsManaged (some s) = state_of s.state
    where
      state_of : (state : SessionState) → Keeps (IsManaged env) Any (check_state env s state)
      state_of starting = search managed_rules
      state_of started = search managed_rules
      state_of stopping = search managed_rules
      state_of stopped = search managed_rules
      state_of failed = unfold cleanup_failed_session in search managed_rules

  refuse_existing-IsManaged : (id : Text) → Keeps (IsManaged env) Any (refuse_existing env id)
  unfolding refuse_existing
  refuse_existing-IsManaged id = record {
    at = λ w p. (check_existing-IsManaged (lookup id w.sessions)).at w p;
  }

  check_limit-same : (n : ℕ) (w : World F) → (check_limit env n w).1 ≡ w
  unfolding check_limit
  check_limit-same n w = ground arith

  check_limit-IsManaged : (n : ℕ) → Keeps (IsManaged env) Any (check_limit env n)
  check_limit-IsManaged n = Keeps-same (check_limit env n) (check_limit-same n)

  initialize-IsManaged : (id : Text) → Keeps (IsManaged env) Any (initialize_session_info env id)
  unfolding initialize_session_info
  initialize-IsManaged id = search managed_rules

  after_launch-IsManaged :
      (s : SessionInfo F) (r : Result Launch) → Keeps (IsManaged env) Any (after_launch env s r)
  unfolding after_launch handle_browser_setup_failure
  after_launch-IsManaged s (ok launch) = search managed_rules
  after_launch-IsManaged s (err e) = search managed_rules

  launch-IsManaged :
      (s : SessionInfo F) (options : BrowserOptions)
      → Keeps (IsManaged env) Any (launch_new_browser env s options)
  unfolding launch_new_browser run_launch
  launch-IsManaged s options =
      Keeps-then (run_launch env s.session_id options) (after_launch env s)
        (record { at = λ w p. (p, tt) }) (after_launch-IsManaged s)

  setup-IsManaged :
      (s : SessionInfo F) (options : BrowserOptions)
      → Keeps (IsManaged env) Any (setup_browser env s options)
  unfolding setup_browser handle_browser_setup_failure
  setup-IsManaged s options = search (managed_rules, launch-IsManaged)

  end_browser-IsManaged :
      (s : SessionInfo F) (e : Exn) → Keeps (IsManaged env) Any (end_browser env s e)
  unfolding end_browser
  end_browser-IsManaged s e = search managed_rules

  safety_net-IsManaged :
      (s : SessionInfo F) (out : Result (SessionInfo F) × World F)
      → (IsManaged env) out.1
      → (IsManaged env) (safety_net env s out).1
  unfolding safety_net
  safety_net-IsManaged s (ok session, w) p = p
  safety_net-IsManaged s (err e, w) p =
      elim (Bool-cases
        (is_given (real_pid s.browser_pid) && not (is_failed (lookup s.session_id w.sessions)))) [
          | inl y ↦ rw y ((end_browser-IsManaged s e).at w p).0
          | inr f ↦ rw f p
        ]

  connect_new-IsManaged :
      (s : SessionInfo F) (page : Option Text) → Keeps (IsManaged env) Any (connect_new env s page)
  unfolding connect_new
  connect_new-IsManaged s page = record {
    at = λ w p. (
      safety_net-IsManaged s _ ((written s page).at w p).0,
      returned_fits (connect_new env s page w).0,
    );
  }
    where
      written :
          (s : SessionInfo F) (page : Option Text)
          → Keeps (IsManaged env) Any (
              connect env s page (text "Failed to start session") >>= λ session.
              write_session_metadata env session >> pure session)
      written s page = search (managed_rules, connect-IsManaged)

  create_session-IsManaged :
      (id : Text) (page : Option Text) (options : BrowserOptions) (max_sessions : Option ℕ)
      → Keeps (IsManaged env) Any (create_session env id page options max_sessions)
  unfolding create_session
  create_session-IsManaged id page options max_sessions =
      search
        (
          managed_rules, prune_sessions-IsManaged, refuse_existing-IsManaged,
          load_existing-IsManaged, check_limit-IsManaged, initialize-IsManaged, setup-IsManaged,
          connect_new-IsManaged,
        )
        depth 12

  force_close-IsManaged :
      (id : Text) (s : SessionInfo F) → Keeps (IsManaged env) Any (force_close env id s)
  unfolding force_close
  force_close-IsManaged id s =
      search (managed_rules, cleanup_user_data_dir-IsManaged, cleanup_session_files-IsManaged)

  finish_stopped-IsManaged :
      (id : Text) (s : SessionInfo F) (state : SessionState)
      → Keeps (IsManaged env) Any (finish_stopped env id s state)
  unfolding finish_stopped
  finish_stopped-IsManaged id s stopped =
      search (managed_rules, cleanup_user_data_dir-IsManaged, cleanup_session_files-IsManaged)
  finish_stopped-IsManaged id s starting = search managed_rules
  finish_stopped-IsManaged id s started = search managed_rules
  finish_stopped-IsManaged id s stopping = search managed_rules
  finish_stopped-IsManaged id s failed = search managed_rules

  finish_close-IsManaged :
      (id : Text) (s : SessionInfo F) → Keeps (IsManaged env) Any (finish_close env id s)
  unfolding finish_close
  finish_close-IsManaged id s = search (managed_rules, finish_stopped-IsManaged)

  after_stop-IsManaged :
      (id : Text) (s : SessionInfo F) (r : Result Unit)
      → Keeps (IsManaged env) Any (after_stop env id s r)
  unfolding after_stop
  after_stop-IsManaged id s (ok u) = search (managed_rules, finish_close-IsManaged)
  after_stop-IsManaged id s (err e) = search (managed_rules, finish_close-IsManaged)

  close_loaded-IsManaged :
      (id : Text) (s : SessionInfo F) → Keeps (IsManaged env) Any (close_loaded env id s)
  unfolding close_loaded normal_close
  close_loaded-IsManaged id s = search (managed_rules, after_stop-IsManaged)

  from_memory-IsManaged :
      (id : Text) (r : Option (SessionInfo F)) → Keeps (IsManaged env) Any (from_memory env id r)
  unfolding from_memory
  from_memory-IsManaged id none = Keeps-same (load_session env id) (load_session-same env id)
  from_memory-IsManaged id (some s) = search managed_rules

  load_session_for_close-IsManaged :
      (id : Text) (force : Bool) → Keeps (IsManaged env) Any (load_session_for_close env id force)
  unfolding load_session_for_close
  load_session_for_close-IsManaged id true = record {
    at = λ w p. (from_memory-IsManaged id (lookup id w.sessions)).at w p;
  }
  load_session_for_close-IsManaged id false = record {
    at = λ w p. (get_session-IsManaged env id).at w p;
  }

  close_session-IsManaged :
      (id : Text) (force : Bool) → Keeps (IsManaged env) Any (close_session env id force)
  unfolding close_session
  close_session-IsManaged id true =
      search (managed_rules, load_session_for_close-IsManaged, force_close-IsManaged)
  close_session-IsManaged id false =
      search (managed_rules, load_session_for_close-IsManaged, close_loaded-IsManaged)

  after-IsManaged : (call : Call) (w : World F) → IsManaged env w → IsManaged env (after env call w)
  unfolding after
  after-IsManaged (create id page options max_sessions) w p =
      ((create_session-IsManaged id page options max_sessions).at w p).0
  after-IsManaged (get id) w p = ((get_session-IsManaged env id).at w p).0
  after-IsManaged (close id force) w p = ((close_session-IsManaged id force).at w p).0
  after-IsManaged (prune ignore_ttl dry_run) w p =
      ((prune_sessions-IsManaged env ignore_ttl dry_run).at w p).0

  -- Whatever calls the session manager gets, each returning or raising, every user data directory
  -- that it removes lies in its configuration directory, where this held of those removed before.
  pub after_all-IsManaged :
      (calls : List (Call)) (w : World F) → IsManaged env w → IsManaged env (after_all env calls w)
  unfolding after_all
  after_all-IsManaged [] w p = p
  after_all-IsManaged (call ∷ calls) w p =
      after_all-IsManaged calls (after env call w) (after-IsManaged call w p)
