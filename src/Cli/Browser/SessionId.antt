-- ===== src/Cli/Browser/SessionId.antt =====
-- src/nova_act/cli/browser/services/session/manager.py: the names a session may have.
pub mod Safe
use nova_act.Prelude.{
  ℕ, zero, suc, ◌+◌, ◌==◌, ltb, leb, not, Bool, true, false, ◌&&◌, ◌||◌, Option, none, some, List,
  [], ◌∷◌, ◌++◌, any, if◌then◌else◌, last?,
}
use nova_act.Prelude.Text.{Text, text, text_eq, Dict, lookup, insert, starts_with}
use nova_act.Errors.{Exn, Result, ok, err, plain, isinstance}
use nova_act.Errors.Classes.{runtime_error, value_error, session_limit_reached}
use nova_act.Effect.{M, pure, raise, lift, ◌>>=◌, ◌>>◌, when}
use nova_act.UrlParse.{is_letter}
use nova_act.PathValidator.{is_blank, has_char, has_dot_dot}
use nova_act.Json.{Value, null, str, Fields, end, field?, truthy, to_text}
use nova_act.Cli.Browser.Models.{
  SessionState, starting, started, stopping, stopped, failed, SessionInfo, AuthConfig, is_active,
  is_stale, get_or_null,
}
use nova_act.Cli.Browser.Sessions.{
  World, Env, Launch, with_sessions, count_active, keep, failing, remove_lock, touch_lock, unlink,
  forget, all_values, has_key, write_session_metadata, terminate, load_existing, load_session,
  connect, get_session, real_pid, is_given,
}

-- `[a-zA-Z0-9._-]+$`, where `$` matches before a last line feed too.
abbrev pub is_id_char : ℕ → Bool
is_id_char c =
    is_letter c || ((leb b'0' c && leb c b'9') || (c == b'.' || (c == b'_' || c == b'-')))

unfoldable pub matches_id : Text → Bool
matches_id [] = false
matches_id (c ∷ s) = is_id_char c && (text_eq s [] || (text_eq s (10 ∷ []) || matches_id s))

abbrev pub bad_id : Text → Result Unit
bad_id m = err (plain value_error m)

unfoldable pub validate_session_id : Text → Result Unit
unfolding is_blank has_char has_dot_dot matches_id text_eq
validate_session_id session_id =
    if is_blank session_id
    then bad_id (text "Session ID must not be empty or whitespace-only")
    else if has_char 0 session_id
    then bad_id (text "Session ID must not contain null bytes")
    else if has_dot_dot session_id || (has_char b'/' session_id || has_char 92 session_id)
    then bad_id (text "Session ID must not contain path separators or '..'")
    else if matches_id session_id
    then ok tt
    else bad_id
        (text "Session ID must contain only alphanumeric characters, hyphens, underscores, or dots")
