-- ===== src/Backends/ServiceErrors.antt =====
-- src/nova_act/impl/backends/burst/errors.py: errors of the AWS service, by their code and reason.
pub mod Carried
use nova_act.Prelude.{
  ℕ, leb, ltb, ◌&&◌, ◌||◌, ◌+◌, Bool, true, false, Option, none, some, List, [], ◌∷◌, ◌++◌,
  if◌then◌else◌,
}
use nova_act.Prelude.Int.{ℤ, pos, negsuc}
use nova_act.Prelude.Text.{Text, text, text_eq}
use nova_act.Errors.{Exn, Result, ok, err, plain}
use nova_act.Errors.Classes.{
  ExnClass, auth_error, act_guardrails_error, act_bad_request_error, act_request_throttled_error,
  act_daily_quota_exceeded_error, act_invalid_model_generation_error, act_internal_server_error,
  act_server_error, act_client_error, act_api_error,
}
use nova_act.Fallible.{◌>>=◌}
use nova_act.Json.{
  Value, Items, Fields, null, bool, int, float, str, arr, obj, nil, cons, end, get, is_text,
  Numbers, truthy, to_text,
}
use nova_act.Backends.{ApiExn, api_exn, get_in, join_comma}

-- `field_list` holds the names and the messages.
pub record NovaActServiceError (F : Type 0) : Type 0 where
  pub error_code : Value F
  pub message : Text
  pub reason : Text
  pub status_code : Value F
  pub raw_response : Text
  pub request_id : Value F
  pub field_list : List (Text × Text)
  pub resource_id : Text
  pub resource_type : Text
  pub service_code : Text
  pub quota_code : Text
  pub retry_after_seconds : Value F

module _ {F : Type 0} (numbers : Numbers F) where
  -- `str(v or default)`.
  abbrev text_or : Value F → Text → Text
  text_or v default = if truthy numbers v then to_text numbers v else default

  field_names : Items F → List (Text × Text)
  unfolding get_in to_text
  field_names nil = []
  field_names (cons (obj fs) vs) =
      (
        to_text numbers (get_in fs (text "name") (str [])),
        to_text numbers (get_in fs (text "message") (str [])),
      )
      ∷ field_names vs
  field_names (cons _ vs) = field_names vs

  field_list_of : Value F → List (Text × Text)
  unfolding field_names
  field_list_of (arr vs) = field_names vs
  field_list_of _ = []

  -- `from_client_error`: `response` is the dictionary of a `ClientError`, and `shown` its text. The
  -- parts that are looked up in are dictionaries, or the lookup raises.
  unfoldable pub from_client_error : Fields F → Text → Result (NovaActServiceError F)
  unfolding get get_in truthy to_text field_list_of
  from_client_error response shown = do
    error_code ← get (get_in response (text "Error") (obj end)) (text "Code") (str (text "Unknown"))
    let metadata = get_in response (text "ResponseMetadata") (obj end)
    status_code ← get metadata (text "HTTPStatusCode") null
    request_id ← get metadata (text "RequestId") null
    headers ← get metadata (text "HTTPHeaders") (obj end)
    retry_after_seconds ← get headers (text "Retry-After") null
    let entry = λ (key : Text). text_or (get_in response key null) []
    ok (record {
      error_code = error_code;
      message = text_or (get_in response (text "message") null) shown;
      reason = entry (text "reason");
      status_code = status_code;
      raw_response = to_text numbers (obj response);
      request_id = request_id;
      field_list = field_list_of (get_in response (text "fieldList") (arr nil));
      resource_id = entry (text "resourceId");
      resource_type = entry (text "resourceType");
      service_code = entry (text "serviceCode");
      quota_code = entry (text "quotaCode");
      retry_after_seconds = retry_after_seconds;
    })

  -- A label and a text, where the text is not empty.
  labelled : Text → Text → Text
  labelled label [] = []
  labelled label (c ∷ t) = label ++ (c ∷ t)

  retry_text : Value F → Text
  unfolding truthy to_text
  retry_text v =
      if truthy numbers v
      then text " Retry after " ++ (to_text numbers v ++ text " seconds")
      else []

  field_texts : List (Text × Text) → List Text
  field_texts [] = []
  field_texts ((name, message) ∷ fields) = (name ++ (text ": " ++ message)) ∷ field_texts fields

  field_details : List (Text × Text) → Text
  unfolding field_texts join_comma
  field_details [] = []
  field_details (f ∷ fields) = text " Fields: " ++ join_comma (field_texts (f ∷ fields))

  in_range : ℕ → Value F → Bool
  in_range hundreds (int (pos n)) = leb hundreds n && ltb n (hundreds + 100)
  in_range hundreds _ = false

module _ {F : Type 0} (numbers : Numbers F) (error : NovaActServiceError F) where
  -- An API error with the attributes of the service's error.
  abbrev pub carrying : ExnClass → Text → ApiExn F
  carrying cls message =
      api_exn cls error.request_id error.status_code message (some error.raw_response)

  access_denied : ApiExn F
  access_denied = record {
    exn = plain auth_error (text "Access denied: " ++ error.message);
    request_id = null;
    status_code = null;
    raw_response = none;
  }

  validation : ApiExn F
  unfolding labelled field_details
  validation =
      let reason = labelled numbers (text " (Reason: ") error.reason in
      let closed : Text = elim error.reason [ [] ↦ [] | _ ↦ reason ++ text ")" ] in
      let full_message =
        text "Validation failed: "
        ++ (error.message ++ (closed ++ field_details numbers error.field_list)) in
      if text_eq error.reason (text "GuardrailIntervened")
      then carrying act_guardrails_error full_message
      else carrying act_bad_request_error full_message

  resource_not_found : ApiExn F
  unfolding labelled
  resource_not_found = carrying act_bad_request_error (
      text "Resource not found: "
      ++ (error.message
          ++ (labelled numbers (text " Resource ID: ") error.resource_id
              ++ labelled numbers (text " Resource Type: ") error.resource_type)))

  throttling : ApiExn F
  unfolding labelled retry_text
  throttling = carrying act_request_throttled_error (
      text "Request throttled: "
      ++ (error.message
          ++ (labelled numbers (text " Service: ") error.service_code
              ++ (labelled numbers (text " Quota: ") error.quota_code
                  ++ retry_text numbers error.retry_after_seconds))))

  service_quota_exceeded : ApiExn F
  unfolding labelled
  service_quota_exceeded = carrying act_daily_quota_exceeded_error (
      text "Service quota exceeded: "
      ++ (error.message
          ++ (labelled numbers (text " Quota Code: ") error.quota_code
              ++ (labelled numbers (text " Service: ") error.service_code
                  ++ (labelled numbers (text " Resource ID: ") error.resource_id
                      ++ labelled numbers (text " Resource Type: ") error.resource_type)))))

  internal_server : ApiExn F
  unfolding labelled retry_text
  internal_server =
      if text_eq error.reason (text "InvalidModelGeneration")
        || text_eq error.reason (text "RequestTokenLimitExceeded")
      then api_exn act_invalid_model_generation_error null null error.message
          (some error.raw_response)
      else carrying act_internal_server_error (
          text "Internal server error: "
          ++ (error.message
              ++ (labelled numbers (text " Reason: ") error.reason
                  ++ retry_text numbers error.retry_after_seconds)))

  unknown_error : ApiExn F
  unfolding in_range to_text
  unknown_error =
      let message =
        text "Unknown error ("
        ++ (to_text numbers error.error_code ++ (text "): " ++ error.message)) in
      if in_range numbers 500 error.status_code
      then carrying act_server_error message
      else if in_range numbers 400 error.status_code
      then carrying act_client_error message
      else carrying act_api_error message

  unfoldable pub translate_nova_act_service_error : ApiExn F
  unfolding access_denied validation resource_not_found throttling service_quota_exceeded
      internal_server unknown_error
  translate_nova_act_service_error =
      if is_text error.error_code (text "AccessDeniedException")
      then access_denied
      else if is_text error.error_code (text "ValidationException")
      then validation
      else if is_text error.error_code (text "ResourceNotFoundException")
      then resource_not_found
      else if is_text error.error_code (text "ThrottlingException")
      then throttling
      else if is_text error.error_code (text "ServiceQuotaExceededException")
      then service_quota_exceeded
      else if is_text error.error_code (text "InternalServerException")
      then internal_server
      else unknown_error
