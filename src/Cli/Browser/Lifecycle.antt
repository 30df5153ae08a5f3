-- ===== src/Cli/Browser/Lifecycle.antt =====
-- src/nova_act/cli/browser/services/session/manager.py: what the commands of the command line tool ask of the session manager, one call
-- after the other.
pub mod Starting
use nova_act.Prelude.{ℕ, Option, List, [], ◌∷◌, Bool}
use nova_act.Prelude.Text.{Text}
use nova_act.Cli.Browser.Models.{BrowserOptions}
use nova_act.Cli.Browser.Sessions.{World, Env, get_session}
use nova_act.Cli.Browser.Pruning.{prune_sessions}
use nova_act.Cli.Browser.Creating.{create_session}
use nova_act.Cli.Browser.Closing.{close_session}

-- The calls, with their arguments.
pub data Call : Type 0 where
  create : Text → Option Text → BrowserOptions → Option ℕ → Call
  get : Text → Call
  close : Text → Bool → Call
  prune : Bool → Bool → Call

module _ {F : Type 0} (env : Env F) where
  -- What a call leaves, whether it returns or raises.
  unfoldable pub after : Call → World F → World F
  unfolding create_session get_session close_session prune_sessions
  after (create id page options max_sessions) w =
      (create_session env id page options max_sessions w).1
  after (get id) w = (get_session env id w).1
  after (close id force) w = (close_session env id force w).1
  after (prune ignore_ttl dry_run) w = (prune_sessions env ignore_ttl dry_run w).1

  unfoldable pub after_all : List (Call) → World F → World F
  unfolding after
  after_all [] w = w
  after_all (call ∷ calls) w = after_all calls (after call w)
