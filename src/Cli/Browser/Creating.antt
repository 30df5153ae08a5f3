-- ===== src/Cli/Browser/Creating.antt =====
-- src/nova_act/cli/browser/services/session/manager.py: how a session is created, where the system is
-- not macOS, which has further ways to set a browser up.
pub mod Counting
pub mod Limit
use nova_act.Prelude.{
  ℕ, zero, suc, ◌+◌, ◌==◌, ltb, leb, not, Bool, true, false, ◌&&◌, ◌||◌, Option, none, some, List,
  [], ◌∷◌, ◌++◌, any, if◌then◌else◌, last?,
}
use nova_act.Prelude.Text.{Text, text, text_eq, Dict, lookup, insert, starts_with}
use nova_act.Errors.{Exn, Result, ok, err, plain, isinstance}
use nova_act.Errors.Classes.{runtime_error, value_error, session_limit_reached}
use nova_act.Effect.{M, pure, raise, lift, ◌>>=◌, ◌>>◌, when}
use nova_act.UrlParse.{is_letter}
use nova_act.PathValidator.{is_blank, has_char, has_dot_dot}
use nova_act.Json.{
  Value, null, bool, str, arr, Items, nil, cons, field, Fields, end, field?, truthy, to_text,
}
use nova_act.Cli.Browser.Models.{
  SessionState, starting, started, stopping, stopped, failed, SessionInfo, AuthConfig,
  BrowserOptions, or_null, is_active, is_stale, get_or_null,
}
use nova_act.Cli.Browser.Sessions.{
  World, Env, Launch, with_sessions, count_active, keep, failing, remove_lock, touch_lock, unlink,
  forget, all_values, has_key, write_session_metadata, terminate, load_existing, load_session,
  connect, get_session, real_pid, is_given, is_failed,
}
use nova_act.Cli.Browser.SessionId.{validate_session_id}
use nova_act.Cli.Browser.Pruning.{prune_sessions}

abbrev pub default_max_active_sessions : ℕ
default_max_active_sessions = 5

module _ {F : Type 0} where
  -- The arguments of the launch, one value for each.
  abbrev texts : List Text → Items F
  texts [] = nil
  texts (t ∷ ts) = cons (str t) (texts ts)

  -- The dictionary that `create_session` keeps of the options.
  unfoldable pub options_meta : BrowserOptions → Fields F
  options_meta options = field (text "headless") (bool options.headless) (
      field (text "headed") (bool options.headed) (
        field (text "executable_path") (or_null str options.executable_path) (
          field (text "profile_path") (or_null str options.profile_path) (
            field (text "ignore_https_errors") (bool options.ignore_https_errors) (
              field (text "launch_args") (arr (texts options.launch_args)) (
                field (text "use_default_chrome") (bool options.use_default_chrome) (
                  field (text "user_data_dir") (or_null str options.user_data_dir)
                    (field (text "browser_source") (str (text "local")) end))))))))

  unfoldable pub with_options : BrowserOptions → SessionInfo F → SessionInfo F
  unfolding options_meta
  with_options options info = record info {
    browser_options_meta = options_meta options;
    auth_config = options.auth_config;
  }

  abbrev pub launched : Launch → SessionInfo F → SessionInfo F
  launched launch info = record info {
    browser_pid = some launch.pid;
    cdp_endpoint = some launch.ws_url;
    cdp_port = some launch.port;
    user_data_dir = some launch.user_data_dir;
  }

module _ {F : Type 0} (env : Env F) where
  unfoldable pub initialize_session_info : Text → M (World F) (SessionInfo F)
  unfolding ◌>>=◌ keep write_session_metadata touch_lock
  initialize_session_info id =
      let info : SessionInfo F = record {
        session_id = id;
        state = starting;
        nova_act_instance = none;
        created_at = env.now;
        browser_pid = none;
        user_data_dir = none;
        last_used = some env.now;
        cdp_endpoint = none;
        cdp_port = none;
        error_message = none;
        browser_options_meta = end;
        auth_config = none;
        active_tab_index = 0;
      } in
      keep info >> (write_session_metadata env info >> (touch_lock id >> pure info))

  -- `_handle_browser_setup_failure`.
  unfoldable pub handle_browser_setup_failure :
      SessionInfo F → Exn → Text → M (World F) (SessionInfo F)
  unfolding ◌>>=◌ keep write_session_metadata
  handle_browser_setup_failure info e context =
      keep (failing info e.message)
      >> (write_session_metadata env (failing info e.message)
          >> raise (plain runtime_error (context ++ text ": " ++ e.message)))

  unfoldable pub run_launch : Text → BrowserOptions → M (World F) (Result Launch)
  run_launch id options w =
      let out = env.launch id options w.processes in (ok out.0, record w { processes = out.1 })

  unfoldable pub after_launch : SessionInfo F → Result Launch → M (World F) (SessionInfo F)
  unfolding ◌>>=◌ keep handle_browser_setup_failure
  after_launch info (ok launch) = keep (launched launch info) >> pure (launched launch info)
  after_launch info (err e) =
      if isinstance e runtime_error
      then handle_browser_setup_failure info e
          (text "Failed to launch Chrome for session '" ++ info.session_id ++ text "'")
      else raise e

  -- `_launch_new_browser`.
  unfoldable pub launch_new_browser : SessionInfo F → BrowserOptions → M (World F) (SessionInfo F)
  unfolding ◌>>=◌ run_launch after_launch
  launch_new_browser info options = run_launch info.session_id options >>= after_launch info

  -- `_setup_browser`.
  unfoldable pub setup_browser : SessionInfo F → BrowserOptions → M (World F) (SessionInfo F)
  unfolding handle_browser_setup_failure launch_new_browser
  setup_browser info options =
      if options.use_default_chrome
      then handle_browser_setup_failure info
          (plain runtime_error (text "--use-default-chrome is only supported on macOS"))
          (text "Platform check failed")
      else launch_new_browser info options

  unfoldable pub cleanup_failed_session : SessionInfo F → M (World F) Unit
  unfolding ◌>>=◌ terminate unlink remove_lock forget
  cleanup_failed_session info =
      terminate env info.browser_pid
      >> (unlink info.session_id >> (remove_lock info.session_id >> forget info.session_id))

  unfoldable pub check_state : SessionInfo F → SessionState → M (World F) Unit
  unfolding cleanup_failed_session
  check_state info failed = cleanup_failed_session info
  check_state info state = raise (plain value_error (text "Session already exists"))

  unfoldable pub check_existing : Option (SessionInfo F) → M (World F) Unit
  unfolding check_state
  check_existing none = pure tt
  check_existing (some info) = check_state info info.state

  unfoldable pub refuse_existing : Text → M (World F) Unit
  unfolding lookup check_existing
  refuse_existing id w = check_existing (lookup id w.sessions) w

  unfoldable pub check_limit : ℕ → M (World F) Unit
  unfolding count_active
  check_limit limit w =
      if leb limit (count_active w.sessions)
      then (err (plain session_limit_reached (text "Maximum active sessions reached")), w)
      else (ok tt, w)

  unfoldable pub end_browser : SessionInfo F → Exn → M (World F) (SessionInfo F)
  unfolding ◌>>=◌ terminate keep write_session_metadata
  end_browser info e =
      terminate env info.browser_pid
      >> (keep (record info { state = failed })
          >> (write_session_metadata env (record info { state = failed }) >> raise e))

  -- Where the connection ends by what is no `Exception`, the browser is ended all the same.
  unfoldable pub safety_net :
      SessionInfo F → Result (SessionInfo F) × World F → Result (SessionInfo F) × World F
  unfolding end_browser lookup
  safety_net info (ok session, w) = (ok session, w)
  safety_net info (err e, w) =
      if is_given (real_pid info.browser_pid) && not (is_failed (lookup info.session_id w.sessions))
      then end_browser info e w
      else (err e, w)

  unfoldable pub connect_new : SessionInfo F → Option Text → M (World F) (SessionInfo F)
  unfolding ◌>>=◌ connect write_session_metadata safety_net
  connect_new info starting_page w = safety_net info (
      (connect env info starting_page (text "Failed to start session") >>= λ session.
      write_session_metadata env session >> pure session)
        w)

  unfoldable pub create_session :
      Text → Option Text → BrowserOptions → Option ℕ → M (World F) (SessionInfo F)
  unfolding ◌>>=◌ validate_session_id prune_sessions refuse_existing load_existing check_limit
      initialize_session_info keep with_options setup_browser connect_new
  create_session id starting_page options max_sessions =
      lift (validate_session_id id)
      >> (prune_sessions env false false
          >> (refuse_existing id
              >> (load_existing env
                  >> (check_limit
                        (elim max_sessions [ none ↦ default_max_active_sessions | some n ↦ n ])
                      >> (initialize_session_info id >>= λ info.
                          keep (with_options options info)
                          >> (setup_browser (with_options options info) options >>= λ session.
                              connect_new session starting_page))))))
