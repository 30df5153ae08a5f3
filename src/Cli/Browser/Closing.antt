-- ===== src/Cli/Browser/Closing.antt =====
-- src/nova_act/cli/browser/services/session/closer.py, and how manager.py closes a session.
use nova_act.Prelude.{ℕ, Bool, true, false, Option, none, some, ◌++◌, if◌then◌else◌}
use nova_act.Prelude.Text.{Text, text, lookup}
use nova_act.Errors.{Result, ok, err, plain, isinstance}
use nova_act.Errors.Classes.{runtime_error}
use nova_act.Effect.{M, pure, raise, ◌>>=◌, ◌>>◌}
use nova_act.Json.{Value, field?, truthy, to_text}
use nova_act.Cli.Browser.Models.{SessionState, stopping, stopped, SessionInfo, get_or_null}
use nova_act.Cli.Browser.Sessions.{
  World, Env, keep, failing, remove_lock, unlink, forget, write_session_metadata, terminate,
  load_session, get_session, is_failed,
}
use nova_act.Cli.Browser.Pruning.{managed_dir, remove_dir}

module _ {F : Type 0} where
  abbrev pub stopped_session : SessionInfo F → SessionInfo F
  stopped_session info = record info { state = stopped }

  abbrev pub stopping_session : SessionInfo F → SessionInfo F
  stopping_session info = record info { state = stopping }

module _ {F : Type 0} (env : Env F) where
  unfoldable pub from_memory : Text → Option (SessionInfo F) → M (World F) (SessionInfo F)
  unfolding load_session
  from_memory id none = load_session env id
  from_memory id (some info) = pure info

  -- `load_session_for_close`: by force, a session is not connected first.
  unfoldable pub load_session_for_close : Text → Bool → M (World F) (SessionInfo F)
  unfolding get_session lookup from_memory
  load_session_for_close id true w = from_memory id (lookup id w.sessions) w
  load_session_for_close id false w = get_session env id w

  -- `_cleanup_session_files`.
  unfoldable pub cleanup_session_files : Text → M (World F) Unit
  unfolding ◌>>=◌ unlink forget
  cleanup_session_files id = unlink id >> forget id

  -- The profile path as a text, if it is anything.
  abbrev pub profile_text : SessionInfo F → Option Text
  unfolding truthy to_text field?
  profile_text s =
      let v : Value F = get_or_null (text "profile_path") s.browser_options_meta in
      if truthy env.formats.numbers v then some (to_text env.formats.numbers v) else none

  -- `_cleanup_user_data_dir`.
  unfoldable pub cleanup_user_data_dir : SessionInfo F → M (World F) Unit
  unfolding managed_dir profile_text
  cleanup_user_data_dir s = remove_dir env (managed_dir env (profile_text s) s.user_data_dir)

  -- The lock is taken for the warning only; the session goes either way.
  unfoldable pub force_close : Text → SessionInfo F → M (World F) Unit
  unfolding ◌>>=◌ terminate remove_lock cleanup_user_data_dir cleanup_session_files
  force_close id info =
      terminate env info.browser_pid
      >> (remove_lock id >> (cleanup_user_data_dir info >> cleanup_session_files id))

  unfoldable pub stop_client : Option ℕ → Result Unit
  stop_client none = ok tt
  stop_client (some instance') = env.stop instance'

  unfoldable pub finish_stopped : Text → SessionInfo F → SessionState → M (World F) Unit
  unfolding ◌>>=◌ cleanup_user_data_dir cleanup_session_files
  finish_stopped id info stopped = cleanup_user_data_dir info >> cleanup_session_files id
  finish_stopped id info state = pure tt

  -- The `finally` block, for a session in its last state.
  unfoldable pub finish_close : Text → SessionInfo F → M (World F) Unit
  unfolding ◌>>=◌ keep write_session_metadata remove_lock finish_stopped
  finish_close id info =
      keep info
      >> (write_session_metadata env info >> (remove_lock id >> finish_stopped id info info.state))

  -- Only a RuntimeError of the client's stop is caught; another leaves the session in STOPPING.
  unfoldable pub after_stop : Text → SessionInfo F → Result Unit → M (World F) Unit
  unfolding ◌>>=◌ terminate finish_close
  after_stop id info (ok u) =
      terminate env info.browser_pid >> finish_close id (stopped_session info)
  after_stop id info (err e) =
      if isinstance e runtime_error
      then (finish_close id (failing info e.message)
          >> raise (plain runtime_error (text "Failed to stop session: " ++ e.message)))
      else (finish_close id (stopping_session info) >> raise e)

  unfoldable pub normal_close : Text → SessionInfo F → M (World F) Unit
  unfolding stop_client after_stop
  normal_close id info = after_stop id info (stop_client info.nova_act_instance)

  unfoldable pub close_loaded : Text → SessionInfo F → M (World F) Unit
  unfolding normal_close remove_lock
  close_loaded id info = if is_failed (some info) then remove_lock id else normal_close id info

  unfoldable pub close_session : Text → Bool → M (World F) Unit
  unfolding ◌>>=◌ load_session_for_close force_close close_loaded
  close_session id true = load_session_for_close id true >>= force_close id
  close_session id false = load_session_for_close id false >>= close_loaded id
