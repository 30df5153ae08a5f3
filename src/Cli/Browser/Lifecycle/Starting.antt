-- ===== src/Cli/Browser/Lifecycle/Starting.antt =====
-- A session that one process starts, as another process finds it.
use nova_act.Prelude.{ℕ, ◌≡◌, refl, ap, ◌∙◌, true, false, none, some, [], ◌∷◌, arith}
use nova_act.Prelude.Text.{Text, text_eq_refl, lookup, insert, Dict}
use nova_act.Errors.{Result, ok, err}
use nova_act.Effect.{◌>>=◌, pure, bind-ok}
use nova_act.Json.{end}
use nova_act.Cli.Browser.Models.{starting, SessionInfo, Processes, to_dict, determine_session_state}
use nova_act.Cli.Browser.Models.RoundTrip.{reloaded, reconstruct-to_dict}
use nova_act.Cli.Browser.Sessions.{
  World, Env, all_values, skip_unreadable, put_loaded, load_file, load_existing_sessions,
  load_existing, merge, write_session_metadata, keep, touch_lock,
}
use nova_act.Cli.Browser.Pruning.{
  is_pruneable, has_dead_pid, select_pruneable, results_of, prune, prune_sessions,
}
use nova_act.Cli.Browser.Pruning.Effect.{reports, prune-disk, chosen}
use nova_act.Cli.Browser.Creating.{initialize_session_info}

module _ {F : Type 0} (env : Env F)
    (back : (t : ℕ) → env.formats.fromisoformat (env.formats.isoformat t) ≡ ok t)
    (filled : (t : ℕ) → (c : ℕ) × (rest : Text) × (env.formats.isoformat t ≡ c ∷ rest)) where
  -- A process with nothing in memory, on a disk with one session.
  abbrev fresh : SessionInfo F → World F → World F
  fresh s w = record w {
    sessions = [];
    disk = (s.session_id, some (to_dict env.formats.isoformat s)) ∷ [];
  }

  abbrev loaded : SessionInfo F → World F → World F
  loaded s w = record (fresh s w) {
    sessions = (s.session_id, reloaded env.formats w.processes s) ∷ [];
  }

  load_file-to_dict :
      (s : SessionInfo F) (ps : Processes)
      → load_file env ps (some (to_dict env.formats.isoformat s))
        ≡ ok (some (reloaded env.formats ps s))
  unfolding load_file skip_unreadable
  load_file-to_dict s ps =
      ap (skip_unreadable env) (reconstruct-to_dict env.formats ps s back filled)

  load_existing_sessions-fresh :
      (s : SessionInfo F) (w : World F)
      → load_existing_sessions env w.processes [] (fresh s w).disk [] ≡ ok (loaded s w).sessions
  unfolding load_existing_sessions lookup put_loaded insert
  load_existing_sessions-fresh s w =
      ap
        (λ r. elim r as (λ _. Result (Dict (SessionInfo F))) [
          | err e ↦ err e
          | ok info ↦ load_existing_sessions env w.processes [] [] (put_loaded env info [])
        ])
        (load_file-to_dict s w.processes)

  load-fresh :
      (s : SessionInfo F) (w : World F) → load_existing env (fresh s w) ≡ (ok tt, loaded s w)
  unfolding load_existing merge insert
  load-fresh s w =
      ap
        (λ r. elim r as (λ _. Result Unit × World F) [
          | err e ↦ (err e, fresh s w)
          | ok found ↦ (ok tt, record (fresh s w) { sessions = merge [] found })
        ])
        (load_existing_sessions-fresh s w)

  -- What `_initialize_session_info` writes.
  abbrev initial : Text → SessionInfo F
  initial id = record {
    session_id = id;
    state = starting;
    nova_act_instance = none;
    created_at = env.now;
    browser_pid = none;
    user_data_dir = none;
    last_used = some env.now;
    cdp_endpoint = none;
    cdp_port = none;
    error_message = none;
    browser_options_meta = end;
    auth_config = none;
    active_tab_index = 0;
  }

  initial-pruneable :
      (id : Text) (w : World F)
      → is_pruneable env false
          (loaded (initial id) w)
          (reloaded env.formats w.processes (initial id))
        ≡ true
  unfolding is_pruneable has_dead_pid determine_session_state
  initial-pruneable id w = ground arith

  reports-chosen :
      (id : Text) (w : World F)
      → reports id (results_of env (chosen env false (loaded (initial id) w))) ≡ true
  unfolding reports results_of select_pruneable all_values
  reports-chosen id w = rw (initial-pruneable id w, text_eq_refl id) refl

  -- A session that one process has begun to start, on a disk with no other, is taken from the disk by
  -- the pruning of another process, as each creation does it first: its state is not read back, and
  -- a session without a browser is stopped.
  pub initialize-prune :
      (id : Text) (w : World F)
      → lookup id
          (prune_sessions env false false
            (record (initialize_session_info env id (record w { sessions = []; disk = [] })).1 {
              sessions = [];
            })).1.disk
        ≡ none
  unfolding prune_sessions initialize_session_info keep write_session_metadata touch_lock ◌>>=◌ pure
      insert
  initialize-prune id w =
      ap (λ out. lookup id out.1.disk)
        (bind-ok (load_existing env) (λ _. prune env false false) tt (fresh (initial id) v)
          (ap (λ out. out.0) (load-fresh (initial id) v)))
      ∙ (ap (λ out. lookup id (prune env false false out.1).1.disk) (load-fresh (initial id) v)
          ∙ (prune-disk env false id (loaded (initial id) v) ∙ rw (reports-chosen id v) refl))
    where
      v : World F
      v = record w { locks = id ∷ w.locks }
