-- ===== src/Cli/Browser/Sessions.antt =====
-- src/nova_act/cli/browser/services/session/manager.py with persistence.py, locking.py and
-- connector.py: the sessions of one process of the command line tool, those in its memory and those
-- whose metadata files lie on the disk. A file holds the name of the session it is of, and a write
-- of a file succeeds. The launch of a browser, the connection of a client and the
-- end of a process are parameters.
use nova_act.Prelude.{
  ℕ, zero, suc, ◌+◌, not, Bool, true, false, ◌&&◌, ◌||◌, Option, none, some, List, [], ◌∷◌,
  if◌then◌else◌,
}
use nova_act.Prelude.Text.{Text, text, text_eq, Dict, lookup, insert}
use nova_act.Errors.{Exn, Result, ok, err, plain, isinstance}
use nova_act.Errors.Classes.{
  exception, runtime_error, value_error, key_error, session_not_found_error, browser_process_dead,
}
use nova_act.Effect.{M, pure, raise, ◌>>=◌, ◌>>◌}
use nova_act.Json.{Fields}
use nova_act.Cli.Browser.Models.{
  starting, started, stopping, stopped, failed, SessionInfo, BrowserOptions, Formats, Processes,
  is_active, to_dict, reconstruct_session_from_metadata,
}

-- A file that holds a dictionary, or one that cannot be read.
abbrev pub File : Type 0 → Type 0
File F = Option (Fields F)

pub record World (F : Type 0) : Type 0 where
  pub sessions : Dict (SessionInfo F)
  pub disk : Dict (File F)
  pub locks : List Text
  -- The user data directories that were removed, the last one first.
  pub removed : List Text
  pub processes : Processes

pub record Launch : Type 0 where
  pub pid : ℕ
  pub ws_url : Text
  pub port : ℕ
  pub user_data_dir : Text

-- What stands outside: the clock, the browser's launch, `ChromeTerminator.terminate`, the
-- construction and start of a client with the way to the first page, and its stop.
pub record Env (F : Type 0) : Type 0 where
  pub formats : Formats F
  pub now : ℕ
  pub launch : Text → BrowserOptions → Processes → Result Launch × Processes
  pub terminate : ℕ → Processes → Processes
  pub start : SessionInfo F → Option Text → Result ℕ
  pub stop : ℕ → Result Unit
  pub in_config_dir : Text → Bool
  pub same_path : Text → Text → Bool

-- Every entry of a key goes.
unfoldable pub delete : {V : Type 0} → Text → Dict V → Dict V
unfolding text_eq
delete k [] = []
delete k ((j, v) ∷ m) = let rest = delete k m in if text_eq j k then rest else (j, v) ∷ rest

unfoldable pub drop_name : Text → List Text → List Text
unfolding text_eq
drop_name k [] = []
drop_name k (j ∷ names) = let rest = drop_name k names in if text_eq j k then rest else j ∷ rest

unfoldable pub all_values : {V : Type 0} → Dict V → List V
all_values [] = []
all_values ((k, v) ∷ m) = v ∷ all_values m

abbrev pub is_given : {V : Type 0} → Option V → Bool
is_given none = false
is_given (some v) = true

abbrev pub has_key : {V : Type 0} → Text → Dict V → Bool
unfolding lookup
has_key k m = is_given (lookup k m)

-- `d.update(other)`.
unfoldable pub merge : {V : Type 0} → Dict V → Dict V → Dict V
unfolding insert
merge m [] = m
merge m ((k, v) ∷ other) = merge (insert k v m) other

-- The exceptions that a session which cannot be read raises, besides those of the file itself.
abbrev pub is_unreadable : Exn → Bool
is_unreadable e = isinstance e key_error || isinstance e value_error

-- `if pid`.
abbrev pub real_pid : Option ℕ → Option ℕ
real_pid none = none
real_pid (some zero) = none
real_pid (some (suc n)) = some (suc n)

module _ {F : Type 0} where
  abbrev pub with_sessions : Dict (SessionInfo F) → World F → World F
  with_sessions sessions w = record w { sessions = sessions }

  unfoldable pub count_active : Dict (SessionInfo F) → ℕ
  count_active [] = 0
  count_active ((k, s) ∷ m) = (if is_active s.state then 1 else 0) + count_active m

  -- The session object is shared with the dictionary: what is set on it shows there.
  unfoldable pub keep : SessionInfo F → M (World F) Unit
  unfolding insert
  keep info w = (ok tt, record w { sessions = insert info.session_id info w.sessions })

  unfoldable pub get_memory : M (World F) (Dict (SessionInfo F))
  get_memory w = (ok w.sessions, w)

  abbrev pub failing : SessionInfo F → Text → SessionInfo F
  failing info message = record info { state = failed; error_message = some message }

  unfoldable pub remove_lock : Text → M (World F) Unit
  unfolding drop_name
  remove_lock id w = (ok tt, record w { locks = drop_name id w.locks })

  unfoldable pub touch_lock : Text → M (World F) Unit
  touch_lock id w = (ok tt, record w { locks = id ∷ w.locks })

  -- `file.unlink(missing_ok=True)`.
  unfoldable pub unlink : Text → M (World F) Unit
  unfolding delete
  unlink id w = (ok tt, record w { disk = delete id w.disk })

  unfoldable pub forget : Text → M (World F) Unit
  unfolding delete
  forget id w = (ok tt, record w { sessions = delete id w.sessions })

  abbrev pub is_failed : Option (SessionInfo F) → Bool
  is_failed none = false
  is_failed (some info) = elim info.state [
    | failed ↦ true
    | starting ↦ false
    | started ↦ false
    | stopping ↦ false
    | stopped ↦ false
  ]

  abbrev pub connected : SessionInfo F → ℕ → SessionInfo F
  connected info instance' = record info { nova_act_instance = some instance'; state = started }

module _ {F : Type 0} (env : Env F) where
  unfoldable pub write_session_metadata : SessionInfo F → M (World F) Unit
  unfolding insert to_dict
  write_session_metadata info w = (
    ok tt,
    record w { disk = insert info.session_id (some (to_dict env.formats.isoformat info)) w.disk },
  )

  unfoldable pub terminate : Option ℕ → M (World F) Unit
  terminate none w = (ok tt, w)
  terminate (some pid) w = (ok tt, record w { processes = env.terminate pid w.processes })

  unfoldable pub skip_unreadable : Result (SessionInfo F) → Result (Option (SessionInfo F))
  skip_unreadable (ok info) = ok (some info)
  skip_unreadable (err e) = if is_unreadable e then ok none else err e

  -- One file of `load_existing_sessions`: one that cannot be read is logged and passed over.
  unfoldable pub load_file : Processes → File F → Result (Option (SessionInfo F))
  unfolding reconstruct_session_from_metadata skip_unreadable
  load_file ps none = ok none
  load_file ps (some metadata) =
      skip_unreadable (reconstruct_session_from_metadata env.formats ps metadata)

  unfoldable pub put_loaded : Option (SessionInfo F) → Dict (SessionInfo F) → Dict (SessionInfo F)
  unfolding insert
  put_loaded none loaded = loaded
  put_loaded (some info) loaded = insert info.session_id info loaded

  -- The files whose sessions are not in memory yet.
  unfoldable pub load_existing_sessions :
      Processes
      → Dict (SessionInfo F)
      → Dict (File F)
      → Dict (SessionInfo F)
      → Result (Dict (SessionInfo F))
  unfolding load_file lookup put_loaded
  load_existing_sessions ps known [] loaded = ok loaded
  load_existing_sessions ps known ((id, file) ∷ files) loaded =
      let skip = load_existing_sessions ps known files loaded in
      if has_key id known then skip else elim (load_file ps file) [
        | err e ↦ err e
        | ok info ↦ load_existing_sessions ps known files (put_loaded info loaded)
      ]

  -- `SessionManager._load_existing_sessions`.
  unfoldable pub load_existing : M (World F) Unit
  unfolding load_existing_sessions merge
  load_existing w = elim (load_existing_sessions w.processes w.sessions w.disk []) [
    | err e ↦ (err e, w)
    | ok loaded ↦ (ok tt, record w { sessions = merge w.sessions loaded })
  ]

  -- `load_session`, as its callers see it: a session that cannot be read is not found.
  unfoldable pub load_session : Text → M (World F) (SessionInfo F)
  unfolding lookup load_file
  load_session id w = elim (lookup id w.disk) [
    | none ↦ (err (plain session_not_found_error (text "Session not found")), w)
    | some file ↦ elim (load_file w.processes file) [
      | err e ↦ (err e, w)
      | ok none ↦ (err (plain session_not_found_error (text "Session not found")), w)
      | ok (some info) ↦ (ok info, w)
    ]
  ]

  -- `_handle_failure` of the connector: the browser is ended, and the session has failed.
  unfoldable pub handle_failure : SessionInfo F → Text → M (World F) Unit
  unfolding ◌>>=◌ terminate keep write_session_metadata
  handle_failure info message =
      terminate info.browser_pid
      >> (keep (failing info message) >> write_session_metadata (failing info message))

  unfoldable pub after_start : SessionInfo F → Text → Result ℕ → M (World F) (SessionInfo F)
  unfolding ◌>>=◌ handle_failure keep
  after_start info message (ok instance') =
      keep (connected info instance') >> pure (connected info instance')
  after_start info message (err e) =
      if isinstance e exception
      then (handle_failure info e.message >> raise (plain runtime_error message))
      else raise e

  -- `connect_to_session`, and `reconnect_to_session` with no page to go to.
  unfoldable pub connect : SessionInfo F → Option Text → Text → M (World F) (SessionInfo F)
  unfolding after_start
  connect info starting_page message = after_start info message (env.start info starting_page)

  abbrev pub has_endpoint : Option Text → Bool
  has_endpoint none = false
  has_endpoint (some []) = false
  has_endpoint (some (c ∷ s)) = true

  -- `_validate_browser_running`.
  unfoldable pub validate_browser_running : SessionInfo F → M (World F) Unit
  validate_browser_running info w = elim (real_pid info.browser_pid) [
    | none ↦ (ok tt, w)
    | some pid ↦
        if w.processes.pid_exists pid
        then (ok tt, w)
        else (err (plain browser_process_dead (text "Browser process is no longer running")), w)
  ]

  -- A session with a browser that this process has no client for is connected again.
  unfoldable pub reconnect : SessionInfo F → M (World F) (SessionInfo F)
  unfolding ◌>>=◌ validate_browser_running connect write_session_metadata
  reconnect info =
      if has_endpoint info.cdp_endpoint && not (is_given info.nova_act_instance)
      then (validate_browser_running info
          >> (connect info none (text "Failed to reconnect to session") >>= λ session.
              write_session_metadata session >> pure session))
      else pure info

  unfoldable pub remember : Text → SessionInfo F → M (World F) (SessionInfo F)
  unfolding insert
  remember id info w = (ok info, record w { sessions = insert id info w.sessions })

  unfoldable pub found : Text → Option (SessionInfo F) → M (World F) (SessionInfo F)
  unfolding load_session ◌>>=◌
  found id none = load_session id >>= remember id
  found id (some info) = pure info

  -- From memory, or from the disk into memory.
  unfoldable pub find_session : Text → M (World F) (SessionInfo F)
  unfolding lookup found remember
  find_session id w = found id (lookup id w.sessions) w

  unfoldable pub get_session : Text → M (World F) (SessionInfo F)
  unfolding ◌>>=◌ find_session reconnect
  get_session id = find_session id >>= reconnect
