-- ===== src/Cli/Browser/Models.antt =====
-- src/nova_act/cli/browser/services/session/models.py, and the reading of a session's metadata in
-- persistence.py beside it. Times are whole microseconds; `isoformat` and its inverse, the printing
-- of numbers and the processes of the machine are parameters. A client instance is a number.
pub mod RoundTrip
use nova_act.Prelude.{
  ℕ, zero, suc, ◌+◌, ◌*◌, ◌-◌, ◌<◌, ltb, not, Bool, true, false, ◌&&◌, ◌||◌, Option, none, some,
  List, [], ◌∷◌, any, ◌==◌, if◌then◌else◌,
}
use nova_act.Prelude.Int.{ℤ, pos, negsuc}
use nova_act.Prelude.Text.{Text, text, text_eq}
use nova_act.Errors.{Exn, Result, ok, err, plain}
use nova_act.Errors.Classes.{value_error, key_error, attribute_error}
use nova_act.Fallible.{◌>>=◌}
use nova_act.Json.{
  Value, null, bool, int, float, str, arr, obj, Fields, end, field, field?, item, Numbers, truthy,
  to_text,
}

pub data SessionState : Type 0 where
  starting started stopping stopped failed : SessionState

-- `state.value`.
abbrev pub state_value : SessionState → Text
state_value starting = text "starting"
state_value started = text "started"
state_value stopping = text "stopping"
state_value stopped = text "stopped"
state_value failed = text "failed"

-- STARTING and STARTED.
abbrev pub is_active : SessionState → Bool
is_active starting = true
is_active started = true
is_active stopping = false
is_active stopped = false
is_active failed = false

pub record AuthConfig : Type 0 where
  pub is_aws : Bool
  pub profile : Option Text
  pub region : Option Text
  pub workflow_name : Option Text

-- `BrowserOptions`, less the arguments of the client's constructor.
pub record BrowserOptions : Type 0 where
  pub headless : Bool
  pub headed : Bool
  pub executable_path : Option Text
  pub profile_path : Option Text
  pub ignore_https_errors : Bool
  pub launch_args : List Text
  pub auth_config : Option AuthConfig
  pub use_default_chrome : Bool
  pub user_data_dir : Option Text

pub record SessionInfo (F : Type 0) : Type 0 where
  pub session_id : Text
  pub state : SessionState
  pub nova_act_instance : Option ℕ
  pub created_at : ℕ
  pub browser_pid : Option ℕ
  pub user_data_dir : Option Text
  pub last_used : Option ℕ
  pub cdp_endpoint : Option Text
  pub cdp_port : Option ℕ
  pub error_message : Option Text
  pub browser_options_meta : Fields F
  pub auth_config : Option AuthConfig
  pub active_tab_index : ℕ

-- What Python gives the printing and reading of times and numbers.
pub record Formats (F : Type 0) : Type 0 where
  pub numbers : Numbers F
  pub isoformat : ℕ → Text
  pub fromisoformat : Text → Result ℕ
  pub truncate : F → Result ℕ

-- What `psutil` says of a process.
pub record Processes : Type 0 where
  pub pid_exists : ℕ → Bool
  pub is_running : ℕ → Bool

abbrev pub stale_ttl_hours : ℕ
stale_ttl_hours = 24

-- The microseconds of an hour.
abbrev pub hour : ℕ
hour = 3600000000

abbrev is_set : Option Text → Bool
is_set none = false
is_set (some []) = false
is_set (some (c ∷ s)) = true

-- `_determine_session_state`.
unfoldable pub determine_session_state : Processes → Option ℕ → SessionState
determine_session_state ps none = stopped
determine_session_state ps (some pid) = if ps.pid_exists pid then started else stopped

abbrev from_option : Option ℕ → ℕ
from_option none = 0
from_option (some n) = n

module _ {F : Type 0} where
  abbrev pub or_null : {A : Type 0} → (A → Value F) → Option A → Value F
  or_null f none = null
  or_null f (some a) = f a

  abbrev pub number : ℕ → Value F
  number n = int (pos n)

  abbrev pub has_fields : Fields F → Bool
  has_fields end = false
  has_fields (field k v fs) = true

  -- The `metadata` of a session holds what is not empty.
  unfoldable pub extra_fields : Option Text → Fields F → Fields F
  extra_fields error_message browser_options_meta =
      let options : Fields F =
        if has_fields browser_options_meta
        then field (text "browser_options") (obj browser_options_meta) end
        else end in
      if is_set error_message
      then field (text "error_message") (or_null str error_message) options
      else options

  unfoldable pub to_dict : (ℕ → Text) → SessionInfo F → Fields F
  unfolding extra_fields
  to_dict isoformat s = field (text "session_id") (str s.session_id) (
      field (text "state") (str (state_value s.state)) (
        field (text "created_at") (str (isoformat s.created_at)) (
          field (text "browser_pid") (or_null number s.browser_pid) (
            field (text "user_data_dir") (or_null str s.user_data_dir) (
              field (text "last_used") (or_null (λ t. str (isoformat t)) s.last_used) (
                field (text "cdp_endpoint") (or_null str s.cdp_endpoint) (
                  field (text "cdp_port") (or_null number s.cdp_port) (
                    field (text "browser_source") (str (text "local")) (
                      field (text "active_tab_index") (number s.active_tab_index) (
                        field (text "metadata")
                          (obj (extra_fields s.error_message s.browser_options_meta)) end))))))))))

  -- `is_stale`.
  unfoldable pub is_stale : ℕ → SessionInfo F → Bool
  is_stale now s =
      let reference : ℕ = elim s.last_used [ none ↦ s.created_at | some t ↦ t ] in
      ltb (stale_ttl_hours * hour) (now - reference)

  -- `is_orphaned`.
  unfoldable pub is_orphaned : Processes → SessionInfo F → Bool
  is_orphaned ps s = elim s.state [
    | started ↦ elim s.browser_pid [ none ↦ false | some pid ↦ not (ps.is_running pid) ]
    | starting ↦ false
    | stopping ↦ false
    | stopped ↦ false
    | failed ↦ false
  ]

  -- `metadata.get(key)`: a key that is missing gives None.
  abbrev pub get_or_null : Text → Fields F → Value F
  get_or_null key fs = elim (field? key fs) [ none ↦ null | some v ↦ v ]

module _ {F : Type 0} (formats : Formats F) where
  -- `int(v)` of a value that is a number; a `bool` is one, a negative number is no port and no
  -- process, and is left out here.
  unfoldable pub int_or : Option ℕ → Value F → Result (Option ℕ)
  int_or default null = ok default
  int_or default (bool false) = ok (some 0)
  int_or default (bool true) = ok (some 1)
  int_or default (int (pos n)) = ok (some n)
  int_or default (int (negsuc n)) = ok default
  int_or default (float x) = formats.truncate x >>= λ n. ok (some n)
  int_or default (str s) = ok default
  int_or default (arr vs) = ok default
  int_or default (obj fs) = ok default

  -- `str(v) if v is not None else None`.
  unfoldable pub text_or_none : Value F → Option Text
  text_or_none null = none
  text_or_none v = some (to_text formats.numbers v)

  -- `str(v) if v else None`.
  unfoldable pub truthy_text : Value F → Option Text
  unfolding truthy to_text
  truthy_text v = if truthy formats.numbers v then some (to_text formats.numbers v) else none

  abbrev pub fields_or_empty : Value F → Fields F
  fields_or_empty (obj fs) = fs
  fields_or_empty v = end

  abbrev pub read_last_used : Option Text → Result (Option ℕ)
  read_last_used none = ok none
  read_last_used (some []) = ok none
  read_last_used (some (c ∷ s)) = formats.fromisoformat (c ∷ s) >>= λ t. ok (some t)

  -- `_reconstruct_session_from_metadata`.
  unfoldable pub reconstruct_session_from_metadata : Processes → Fields F → Result (SessionInfo F)
  unfolding field? item int_or text_or_none truthy_text determine_session_state to_text
  reconstruct_session_from_metadata ps metadata =
      int_or none (get_or_null (text "browser_pid") metadata) >>= λ browser_pid.
      int_or none (get_or_null (text "cdp_port") metadata) >>= λ cdp_port.
      int_or (some 0) (get_or_null (text "active_tab_index") metadata) >>= λ active_tab_index.
      item (obj metadata) (text "session_id") >>= λ session_id.
      item (obj metadata) (text "created_at") >>= λ created_at.
      formats.fromisoformat (to_text formats.numbers created_at) >>= λ created.
      read_last_used (truthy_text (get_or_null (text "last_used") metadata)) >>= λ last_used.
      let extra = fields_or_empty (get_or_null (text "metadata") metadata) in
      ok (record {
        session_id = to_text formats.numbers session_id;
        state = determine_session_state ps browser_pid;
        nova_act_instance = none;
        created_at = created;
        browser_pid = browser_pid;
        user_data_dir = text_or_none (get_or_null (text "user_data_dir") metadata);
        last_used = last_used;
        cdp_endpoint = text_or_none (get_or_null (text "cdp_endpoint") metadata);
        cdp_port = cdp_port;
        error_message = truthy_text (get_or_null (text "error_message") extra);
        browser_options_meta = fields_or_empty (get_or_null (text "browser_options") extra);
        auth_config = none;
        active_tab_index = from_option active_tab_index;
      })
