-- ===== src/Cli/Browser/Models/RoundTrip.antt =====
-- Reading the metadata that a session writes.
use nova_act.Prelude.{ℕ, ◌≡◌, refl, ap, Option, none, some, [], ◌∷◌}
use nova_act.Prelude.Text.{Text, text, text_eq}
use nova_act.Errors.{ok}
use nova_act.Fallible.{◌>>=◌}
use nova_act.Json.{str, Fields, end, field, truthy, to_text, field?}
use nova_act.Cli.Browser.Models.{
  SessionInfo, Formats, Processes, to_dict, extra_fields, reconstruct_session_from_metadata,
  determine_session_state, int_or, or_null, number, text_or_none, truthy_text, get_or_null,
  fields_or_empty, read_last_used,
}

-- A text that is empty counts as none.
abbrev pub given : Option Text → Option Text
given none = none
given (some []) = none
given (some (c ∷ s)) = some (c ∷ s)

module _ {F : Type 0} (formats : Formats F) (ps : Processes) where
  -- What is left of a session that another process reads: it has no client, its authentication is
  -- resolved anew, an empty error message is gone, and its state is that of its process.
  abbrev pub reloaded : SessionInfo F → SessionInfo F
  reloaded s = record s {
    state = determine_session_state ps s.browser_pid;
    nova_act_instance = none;
    error_message = given s.error_message;
    auth_config = none;
  }

  int_or-number : (o : Option ℕ) → int_or formats none (or_null number o) ≡ ok o
  unfolding int_or
  int_or-number none = refl
  int_or-number (some n) = refl

  text_or_none-str : (o : Option Text) → text_or_none formats (or_null str o) ≡ o
  unfolding text_or_none to_text
  text_or_none-str none = refl
  text_or_none-str (some s) = refl

  error_message-extra_fields :
      (error : Option Text) (options : Fields F)
      → truthy_text formats (get_or_null (text "error_message") (extra_fields error options))
        ≡ given error
  unfolding extra_fields truthy_text field? text_eq
  error_message-extra_fields none end = refl
  error_message-extra_fields none (field k v fs) = refl
  error_message-extra_fields (some []) end = refl
  error_message-extra_fields (some []) (field k v fs) = refl
  error_message-extra_fields (some (c ∷ s)) options = refl

  options-extra_fields :
      (error : Option Text) (options : Fields F)
      → fields_or_empty formats (get_or_null (text "browser_options") (extra_fields error options))
        ≡ options
  unfolding extra_fields field? text_eq
  options-extra_fields none end = refl
  options-extra_fields none (field k v fs) = refl
  options-extra_fields (some []) end = refl
  options-extra_fields (some []) (field k v fs) = refl
  options-extra_fields (some (c ∷ s)) end = refl
  options-extra_fields (some (c ∷ s)) (field k v fs) = refl

  read-last_used :
      (o : Option ℕ)
      → ((t : ℕ) → formats.fromisoformat (formats.isoformat t) ≡ ok t)
      → ((t : ℕ) → (c : ℕ) × (rest : Text) × (formats.isoformat t ≡ c ∷ rest))
      → read_last_used formats (truthy_text formats (or_null (λ t. str (formats.isoformat t)) o))
        ≡ ok o
  unfolding truthy_text truthy to_text
  read-last_used none back filled = refl
  read-last_used (some t) back filled =
      let (c, rest, e) = filled t in
      rw e (ap (λ r. r >>= λ (u : ℕ). ok (some u)) (rw e at (back t)))

  -- A session that is written and read again, by whatever process, has every field as it was but
  -- four: its client and its authentication are dropped, an empty error message is read as none, and
  -- its state, whatever it was, becomes that of its process, as `determine_session_state` reads it
  -- off the pid. It is provided that the text of a time is not empty and can be read back.
  pub reconstruct-to_dict :
      (s : SessionInfo F)
      → ((t : ℕ) → formats.fromisoformat (formats.isoformat t) ≡ ok t)
      → ((t : ℕ) → (c : ℕ) × (rest : Text) × (formats.isoformat t ≡ c ∷ rest))
      → reconstruct_session_from_metadata formats ps (to_dict formats.isoformat s) ≡ ok (reloaded s)
  unfolding reconstruct_session_from_metadata to_dict
  reconstruct-to_dict s back filled =
      rw
        (
          int_or-number s.browser_pid,
          int_or-number s.cdp_port,
          back s.created_at,
          read-last_used s.last_used back filled,
          text_or_none-str s.user_data_dir,
          text_or_none-str s.cdp_endpoint,
          error_message-extra_fields s.error_message s.browser_options_meta,
          options-extra_fields s.error_message s.browser_options_meta,
        )
        refl
