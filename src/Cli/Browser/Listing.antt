-- ===== src/Cli/Browser/Listing.antt =====
-- src/nova_act/cli/browser/services/session: the operations of manager.py, persistence.py, locking.py and
-- closer.py that list the sessions, or close several.
use nova_act.Prelude.{Bool, ◌||◌, List, [], ◌∷◌, ◌++◌, if◌then◌else◌}
use nova_act.Prelude.Text.{Text, text, lookup}
use nova_act.Errors.{Result, ok, err, isinstance}
use nova_act.Errors.Classes.{exception}
use nova_act.Effect.{M, pure, ◌>>=◌, ◌>>◌}
use nova_act.Cli.Browser.Models.{SessionInfo, Processes, is_active, is_orphaned}
use nova_act.Cli.Browser.Sessions.{World, Env, has_key, all_values, load_existing}
use nova_act.Cli.Browser.Closing.{close_session}

module _ {F : Type 0} where
  -- `filter_active_sessions`.
  unfoldable pub filter_active_sessions : List (SessionInfo F) → List (SessionInfo F)
  filter_active_sessions [] = []
  filter_active_sessions (s ∷ ss) =
      let rest = filter_active_sessions ss in if is_active s.state then s ∷ rest else rest

  unfoldable pub orphaned_sessions : Processes → List (SessionInfo F) → List (SessionInfo F)
  unfolding is_orphaned
  orphaned_sessions ps [] = []
  orphaned_sessions ps (s ∷ ss) =
      let rest = orphaned_sessions ps ss in if is_orphaned ps s then s ∷ rest else rest

  -- The locks that a session on the disk or in memory still has.
  unfoldable pub known_locks : World F → List Text → List Text
  unfolding lookup
  known_locks w [] = []
  known_locks w (id ∷ locks) =
      let rest = known_locks w locks in
      if has_key id w.disk || has_key id w.sessions then id ∷ rest else rest

  unfoldable pub cleanup_stale_locks : M (World F) Unit
  unfolding known_locks
  cleanup_stale_locks w = (ok tt, record w { locks = known_locks w w.locks })

  unfoldable pub session_exists : Text → World F → Bool
  unfolding lookup
  session_exists id w = has_key id w.sessions || has_key id w.disk

  unfoldable pub get_sessions : M (World F) (List (SessionInfo F))
  unfolding all_values
  get_sessions w = (ok (all_values w.sessions), w)

module _ {F : Type 0} (env : Env F) where
  -- `list_sessions`; the orphans are only named in a warning.
  unfoldable pub list_sessions : M (World F) (List (SessionInfo F))
  unfolding ◌>>=◌ load_existing cleanup_stale_locks get_sessions
  list_sessions = load_existing env >> (cleanup_stale_locks >> get_sessions)

  abbrev closed : Text → List Text × List Text → List Text × List Text
  closed id (closed_ids, failed_sessions) = (id ∷ closed_ids, failed_sessions)

  abbrev not_closed : Text → Text → List Text × List Text → List Text × List Text
  not_closed id message (closed_ids, failed_sessions) =
      (closed_ids, (id ++ text ": " ++ message) ∷ failed_sessions)

  -- The rest of a batch, after one session: what is no `Exception` ends it.
  unfoldable pub after_closing :
      Text
      → M (World F) (List Text × List Text)
      → Result Unit × World F
      → Result (List Text × List Text) × World F
  unfolding ◌>>=◌
  after_closing id rest (ok u, w) = (rest >>= λ out. pure (closed id out)) w
  after_closing id rest (err e, w) =
      if isinstance e exception
      then (rest >>= λ out. pure (not_closed id e.message out)) w
      else (err e, w)

  -- `close_sessions_batch`: a session that cannot be closed does not stop the others.
  unfoldable pub close_sessions_batch :
      List (SessionInfo F) → Bool → M (World F) (List Text × List Text)
  unfolding close_session after_closing
  close_sessions_batch [] force = pure ([], [])
  close_sessions_batch (s ∷ ss) force =
      let rest = close_sessions_batch ss force in
      λ w. after_closing s.session_id rest (close_session env s.session_id force w)
