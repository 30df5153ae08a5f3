-- ===== src/Cli/Browser/Creating/Limit.antt =====
-- The limit on active sessions.
use nova_act.Prelude.{
  ℕ, ◌≤◌, ◌<◌, ◌≡◌, refl, sym, leb, false, ◌&&◌, not, Option, none, some, arith, Bool-cases, inl,
  inr,
}
use mathlib.Core.Path.{subst}
use nova_act.Prelude.Text.{Text, text, lookup, insert}
use nova_act.Errors.{Exn, Result, ok, err}
use nova_act.Effect.{M, ◌>>=◌, ◌>>◌, pure, lift}
use nova_act.Effect.Keeps.{
  Keeps, Any, Returns, OnReturn, on_return, bind-OnReturn, keeps_rules, Keeps-bind, Keeps-then,
}
use nova_act.Json.{end}
use nova_act.Cli.Browser.Models.{starting, SessionInfo, BrowserOptions}
use nova_act.Cli.Browser.Sessions.{
  World, Env, Launch, after_start, count_active, keep, touch_lock, write_session_metadata,
  terminate, real_pid, is_given, is_failed, handle_failure, connect, load_existing,
}
use nova_act.Cli.Browser.SessionId.{validate_session_id}
use nova_act.Cli.Browser.Pruning.{prune_sessions}
use nova_act.Cli.Browser.Creating.{
  default_max_active_sessions, refuse_existing, check_limit, initialize_session_info, with_options,
  handle_browser_setup_failure, run_launch, after_launch, launch_new_browser, setup_browser,
  end_browser, safety_net, connect_new, create_session,
}
use nova_act.Cli.Browser.Creating.Counting.{count-le-insert, count-insert, insert-insert}

module _ {F : Type 0} (env : Env F) (id : Text) (n : ℕ) where
  -- Whatever the session of the id becomes, no more than so many are active.
  abbrev Bounded : World F → Type 0
  Bounded w = (v : SessionInfo F) → count_active (insert id v w.sessions) ≤ n

  abbrev IsNamed : SessionInfo F → Type 0
  IsNamed s = s.session_id ≡ id

  keep-Bounded : (s : SessionInfo F) → IsNamed s → Keeps Bounded Any (keep s)
  unfolding keep
  keep-Bounded s e = record {
    at = λ w b. (
      λ v.
          subst (λ k. count_active (insert id v (insert k s w.sessions)) ≤ n) (sym e)
            (subst (λ m. count_active m ≤ n) (sym (insert-insert id s v w.sessions)) (b v)),
      tt,
    );
  }

  write-Bounded : (s : SessionInfo F) → Keeps Bounded Any (write_session_metadata env s)
  unfolding write_session_metadata
  write-Bounded s = record { at = λ w b. (b, tt) }

  terminate-Bounded : (pid : Option ℕ) → Keeps Bounded Any (terminate env pid)
  unfolding terminate
  terminate-Bounded none = record { at = λ w b. (b, tt) }
  terminate-Bounded (some pid) = record { at = λ w b. (b, tt) }

  touch_lock-Bounded : (k : Text) → Keeps Bounded Any (touch_lock k)
  unfolding touch_lock
  touch_lock-Bounded k = record { at = λ w b. (b, tt) }

  run_launch-Bounded :
      (k : Text) (options : BrowserOptions) → Keeps Bounded Any (run_launch env k options)
  unfolding run_launch
  run_launch-Bounded k options = record { at = λ w b. (b, tt) }

  ruleset bounded_rules = (
    keeps_rules, keep-Bounded, write-Bounded, terminate-Bounded, touch_lock-Bounded,
    run_launch-Bounded,
  )

  handle_failure-Bounded :
      (s : SessionInfo F) (message : Text)
      → IsNamed s
      → Keeps Bounded Any (handle_failure env s message)
  unfolding handle_failure
  handle_failure-Bounded s message e = search bounded_rules

  after_start-Bounded :
      (s : SessionInfo F) (message : Text) (r : Result ℕ)
      → IsNamed s
      → Keeps Bounded IsNamed (after_start env s message r)
  unfolding after_start
  after_start-Bounded s message (ok instance') e = search bounded_rules
  after_start-Bounded s message (err x) e = search (bounded_rules, handle_failure-Bounded)

  connect-Bounded :
      (s : SessionInfo F) (page : Option Text) (message : Text)
      → IsNamed s
      → Keeps Bounded IsNamed (connect env s page message)
  unfolding connect
  connect-Bounded s page message e = after_start-Bounded s message (env.start s page) e

  after_launch-Bounded :
      (s : SessionInfo F) (r : Result Launch)
      → IsNamed s
      → Keeps Bounded IsNamed (after_launch env s r)
  unfolding after_launch handle_browser_setup_failure
  after_launch-Bounded s (ok launch) e = search bounded_rules
  after_launch-Bounded s (err x) e = search bounded_rules

  launch-Bounded :
      (s : SessionInfo F) (options : BrowserOptions)
      → IsNamed s
      → Keeps Bounded IsNamed (launch_new_browser env s options)
  unfolding launch_new_browser
  launch-Bounded s options e =
      Keeps-then (run_launch env s.session_id options) (after_launch env s)
        (run_launch-Bounded s.session_id options) (λ r. after_launch-Bounded s r e)

  setup-Bounded :
      (s : SessionInfo F) (options : BrowserOptions)
      → IsNamed s
      → Keeps Bounded IsNamed (setup_browser env s options)
  unfolding setup_browser handle_browser_setup_failure
  setup-Bounded s options e = search (bounded_rules, launch-Bounded)

  end_browser-Bounded :
      (s : SessionInfo F) (x : Exn) → IsNamed s → Keeps Bounded IsNamed (end_browser env s x)
  unfolding end_browser
  end_browser-Bounded s x e = search bounded_rules

  written : SessionInfo F → Option Text → M (World F) (SessionInfo F)
  written s page = connect env s page (text "Failed to start session") >>= λ session.
      write_session_metadata env session >> pure session

  written-Bounded :
      (s : SessionInfo F) (page : Option Text) → IsNamed s → Keeps Bounded IsNamed (written s page)
  unfolding written
  written-Bounded s page e =
      Keeps-bind (connect env s page (text "Failed to start session")) _
        (connect-Bounded s page (text "Failed to start session") e)
        (λ session named. search bounded_rules)

  safety_net-Bounded :
      (s : SessionInfo F) (out : Result (SessionInfo F) × World F)
      → IsNamed s
      → Bounded out.1 × Returns IsNamed out.0
      → Bounded (safety_net env s out).1 × Returns IsNamed (safety_net env s out).0
  unfolding safety_net
  safety_net-Bounded s (ok session, w) e h = h
  safety_net-Bounded s (err x, w) e h =
      elim (Bool-cases
        (is_given (real_pid s.browser_pid) && not (is_failed (lookup s.session_id w.sessions)))) [
          | inl y ↦ rw y ((end_browser-Bounded s x e).at w h.0)
          | inr f ↦ rw f (h.0, tt)
        ]

  connect_new-Bounded :
      (s : SessionInfo F) (page : Option Text)
      → IsNamed s
      → Keeps Bounded IsNamed (connect_new env s page)
  unfolding connect_new written
  connect_new-Bounded s page e = record {
    at = λ w b. safety_net-Bounded s (written s page w) e ((written-Bounded s page e).at w b);
  }

  initialize-Bounded : Keeps Bounded IsNamed (initialize_session_info env id)
  unfolding initialize_session_info
  initialize-Bounded = search bounded_rules

  -- What follows the test of the limit.
  abbrev rest_of_create : Option Text → BrowserOptions → M (World F) (SessionInfo F)
  rest_of_create page options = initialize_session_info env id >>= λ info.
      keep (with_options options info)
      >> (setup_browser env (with_options options info) options >>= λ session.
          connect_new env session page)

  rest-Bounded :
      (page : Option Text) (options : BrowserOptions)
      → Keeps Bounded IsNamed (rest_of_create page options)
  unfolding with_options
  rest-Bounded page options =
      Keeps-bind (initialize_session_info env id) _ initialize-Bounded (λ info named.
        Keeps-then (keep (with_options options info)) _
          (keep-Bounded (with_options options info) named)
          (λ _.
            Keeps-bind (setup_browser env (with_options options info) options) _
              (setup-Bounded (with_options options info) options named)
              (λ session e. connect_new-Bounded session page e)))

leb-below : (n m : ℕ) → leb n m ≡ false → m < n
leb-below n m f = ground (arith, f)

-- The limit that is asked for, or five.
abbrev pub limit_of : Option ℕ → ℕ
limit_of none = default_max_active_sessions
limit_of (some n) = n

module _ {F : Type 0} where
  some_active : Text → SessionInfo F
  some_active id = record {
    session_id = id;
    state = starting;
    nova_act_instance = none;
    created_at = 0;
    browser_pid = none;
    user_data_dir = none;
    last_used = none;
    cdp_endpoint = none;
    cdp_port = none;
    error_message = none;
    browser_options_meta = end;
    auth_config = none;
    active_tab_index = 0;
  }

  abbrev pub IsWithin : ℕ → World F → Type 0
  IsWithin n w = count_active w.sessions ≤ n

  within : (env : Env F) (id : Text) (n : ℕ) (w : World F) → Bounded env id n w → IsWithin n w
  unfolding some_active
  within env id n w b =
      omega (arith, b (some_active id), count-le-insert id (some_active id) w.sessions refl)

module _ {F : Type 0} (env : Env F) (id : Text) (page : Option Text)
    (options : BrowserOptions) where
  checked-IsWithin :
      (n : ℕ) (w : World F)
      → OnReturn (IsWithin n) ((check_limit env n >> rest_of_create env id n page options) w)
  unfolding check_limit ◌>>=◌
  checked-IsWithin n w = elim (Bool-cases (leb n (count_active w.sessions))) [
    | inl y ↦ rw y tt
    | inr f ↦ rw f (
        on_return (IsWithin n) (rest_of_create env id n page options w) (
          within env id n (rest_of_create env id n page options w).1
            ((rest-Bounded env id n page options).at w (λ v.
              omega
                (arith, leb-below n (count_active w.sessions) f, count-insert id v w.sessions))).0))
  ]

  -- Where a session is created, no more sessions are active than the limit asked for, or five.
  pub create_session-IsWithin :
      (max_sessions : Option ℕ) (w : World F)
      → OnReturn
          (IsWithin (limit_of max_sessions))
          (create_session env id page options max_sessions w)
  unfolding create_session
  create_session-IsWithin max_sessions w =
      bind-OnReturn (IsWithin (limit_of max_sessions)) (lift (validate_session_id id)) _
        (λ _.
          bind-OnReturn (IsWithin (limit_of max_sessions)) (prune_sessions env false false) _ (λ _.
            bind-OnReturn (IsWithin (limit_of max_sessions)) (refuse_existing env id) _ (λ _.
              bind-OnReturn (IsWithin (limit_of max_sessions)) (load_existing env) _
                (λ _ v. checked-IsWithin (limit_of max_sessions) v))))
        w
