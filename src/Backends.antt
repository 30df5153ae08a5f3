-- ===== src/Backends.antt =====
-- src/nova_act/impl/backends: what a backend makes of the service's answers. The HTTP and AWS clients
-- themselves are outside; their responses are arguments.
pub mod ServiceErrors
pub mod ResponseErrors
pub mod Awl
pub mod Burst
use nova_act.Prelude.{
  ◌≡◌, ℕ, Bool, true, false, Option, none, some, List, [], ◌∷◌, ◌++◌, if◌then◌else◌,
}
use nova_act.Prelude.Text.{Text, text}
use nova_act.Errors.{Exn, act_exn, cls-act_exn}
use nova_act.Errors.Classes.{ExnClass}
use nova_act.Json.{Value, null, field?, Fields, obj}

-- An ActAPIError with the attributes that the class adds; of an ActInvalidModelGenerationError only
-- the raw response is an attribute.
pub record ApiExn (F : Type 0) : Type 0 where
  pub exn : Exn
  pub request_id : Value F
  pub status_code : Value F
  pub raw_response : Option Text

module _ {F : Type 0} where
  unfoldable pub api_exn : ExnClass → Value F → Value F → Text → Option Text → ApiExn F
  unfolding act_exn
  api_exn cls request_id status_code message raw_response = record {
    exn = act_exn cls (some message);
    request_id = request_id;
    status_code = status_code;
    raw_response = raw_response;
  }

  pub cls-api_exn :
      (c : ExnClass) (request_id status_code : Value F) (message : Text) (raw : Option Text)
      → (api_exn c request_id status_code message raw).exn.cls ≡ c
  unfolding api_exn
  cls-api_exn c request_id status_code message raw = cls-act_exn c (some message)

  -- `data.get(key, default)` on a dictionary.
  unfoldable pub get_in : Fields F → Text → Value F → Value F
  unfolding field?
  get_in fs key default = elim (field? key fs) [ none ↦ default | some v ↦ v ]

-- `", ".join(parts)`.
unfoldable pub join_comma : List Text → Text
join_comma [] = []
join_comma (t ∷ []) = t
join_comma (t ∷ (u ∷ ts)) = t ++ (text ", " ++ join_comma (u ∷ ts))
