-- ===== src/Cli/Browser/Pruning.antt =====
-- src/nova_act/cli/browser/services/session/pruner.py, with the pruning in manager.py. The removal of log files is left out.
pub mod Effect
use nova_act.Prelude.{
  ℕ, zero, suc, ◌+◌, ◌==◌, ltb, leb, not, Bool, true, false, ◌&&◌, ◌||◌, Option, none, some, List,
  [], ◌∷◌, ◌++◌, any, if◌then◌else◌, last?,
}
use nova_act.Prelude.Text.{Text, text, text_eq, Dict, lookup, insert, starts_with}
use nova_act.Errors.{Exn, Result, ok, err, plain, isinstance}
use nova_act.Errors.Classes.{runtime_error, value_error, session_limit_reached}
use nova_act.Effect.{M, pure, raise, lift, ◌>>=◌, ◌>>◌, when}
use nova_act.UrlParse.{is_letter}
use nova_act.PathValidator.{is_blank, has_char, has_dot_dot}
use nova_act.Json.{Value, null, str, Fields, end, field?, truthy, to_text}
use nova_act.Cli.Browser.Models.{
  SessionState, starting, started, stopping, stopped, failed, SessionInfo, AuthConfig, is_active,
  is_stale, get_or_null,
}
use nova_act.Cli.Browser.Sessions.{
  World, Env, Launch, with_sessions, count_active, keep, failing, remove_lock, touch_lock, unlink,
  forget, all_values, has_key, write_session_metadata, terminate, load_existing, load_session,
  connect, get_session, real_pid, is_given, is_failed,
}

module _ {F : Type 0} (env : Env F) where
  -- `_has_dead_pid`: a session without a process can go at once.
  unfoldable pub has_dead_pid : World F → SessionInfo F → Bool
  has_dead_pid w s = elim s.browser_pid [
    | none ↦ true
    | some pid ↦ not (w.processes.is_running pid)
  ]

  unfoldable pub is_pruneable : Bool → World F → SessionInfo F → Bool
  unfolding is_stale has_dead_pid
  is_pruneable ignore_ttl w s =
      not (is_active s.state) && (ignore_ttl || (is_stale env.now s || has_dead_pid w s))

  -- A profile path that is a text, and not empty.
  abbrev text_only : Value F → Option Text
  text_only (str (c ∷ t)) = some (c ∷ t)
  text_only v = none

  abbrev pub profile_path : SessionInfo F → Option Text
  unfolding field?
  profile_path s = text_only (get_or_null (text "profile_path") s.browser_options_meta)

  abbrev pub is_profile : Option Text → Text → Bool
  is_profile none dir = false
  is_profile (some profile) dir = env.same_path profile dir

  unfoldable pub managed_dir : Option Text → Option Text → Option Text
  managed_dir profile none = none
  managed_dir profile (some []) = none
  managed_dir profile (some (c ∷ rest)) =
      if is_profile profile (c ∷ rest)
      then none
      else if env.in_config_dir (c ∷ rest)
      then some (c ∷ rest)
      else none

  -- `_should_delete_user_data_dir`: a directory of the user stays.
  unfoldable pub owned_dir : SessionInfo F → Option Text
  unfolding profile_path managed_dir
  owned_dir s = managed_dir (profile_path s) s.user_data_dir

  abbrev pub remove_dir : Option Text → M (World F) Unit
  remove_dir none w = (ok tt, w)
  remove_dir (some dir) w = (ok tt, record w { removed = dir ∷ w.removed })

  unfoldable pub remove_owned_dir : SessionInfo F → M (World F) Unit
  unfolding owned_dir
  remove_owned_dir s = remove_dir (owned_dir s)

  unfoldable pub prune_one : SessionInfo F → M (World F) Unit
  unfolding ◌>>=◌ terminate remove_owned_dir unlink forget remove_lock
  prune_one s =
      terminate env s.browser_pid
      >> (remove_owned_dir s
          >> (unlink s.session_id >> (forget s.session_id >> remove_lock s.session_id)))

  unfoldable pub prune_all : List (SessionInfo F) → M (World F) Unit
  unfolding ◌>>=◌ prune_one
  prune_all [] = pure tt
  prune_all (s ∷ ss) = prune_one s >> prune_all ss

  -- The sessions are chosen before the first of them goes.
  unfoldable pub select_pruneable : Bool → World F → List (SessionInfo F) → List (SessionInfo F)
  unfolding is_pruneable
  select_pruneable ignore_ttl w [] = []
  select_pruneable ignore_ttl w (s ∷ ss) =
      let rest = select_pruneable ignore_ttl w ss in
      if is_pruneable ignore_ttl w s then s ∷ rest else rest

  -- `PruneResult`: the session and its user data directory.
  unfoldable pub results_of : List (SessionInfo F) → List (Text × Option Text)
  results_of [] = []
  results_of (s ∷ ss) = (s.session_id, s.user_data_dir) ∷ results_of ss

  unfoldable pub prune_chosen :
      Bool → List (SessionInfo F) → M (World F) (List (Text × Option Text))
  unfolding ◌>>=◌ results_of prune_all
  prune_chosen true chosen = pure (results_of chosen)
  prune_chosen false chosen = prune_all chosen >> pure (results_of chosen)

  unfoldable pub prune : Bool → Bool → M (World F) (List (Text × Option Text))
  unfolding all_values prune_chosen select_pruneable
  prune ignore_ttl dry_run w =
      prune_chosen dry_run (select_pruneable ignore_ttl w (all_values w.sessions)) w

  unfoldable pub prune_sessions : Bool → Bool → M (World F) (List (Text × Option Text))
  unfolding ◌>>=◌ load_existing prune
  prune_sessions ignore_ttl dry_run = load_existing env >> prune ignore_ttl dry_run
