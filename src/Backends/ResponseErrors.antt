-- ===== src/Backends/ResponseErrors.antt =====
-- assert_json_response of src/nova_act/impl/backends/common.py and _translate_response_error of
-- src/nova_act/impl/backends/sunburst/client.py: the error that an HTTP response stands for.
pub mod Status
use nova_act.Prelude.{
  ℕ, ltb, leb, ◌==◌, ◌&&◌, ◌||◌, Bool, true, false, Option, none, some, List, [], ◌∷◌, ◌++◌, map,
  if◌then◌else◌,
}
use nova_act.Prelude.Int.{pos}
use nova_act.Prelude.Text.{Text, text, Dict}
use nova_act.Errors.{Exn}
use nova_act.Errors.Classes.{
  act_bad_response_error, act_bad_request_error, act_internal_server_error, act_guardrails_error,
  act_daily_quota_exceeded_error, act_rate_limit_exceeded_error, act_request_throttled_error,
  act_invalid_model_generation_error, act_server_error, act_client_error, act_api_error,
}
use nova_act.Json.{
  Value, Items, Fields, null, bool, int, float, str, arr, obj, nil, cons, is_text, Numbers, truthy,
  to_text,
}
use nova_act.Backends.{ApiExn, api_exn, get_in, join_comma}

-- The parts of a `requests.Response` that are read; `json` is `none` where the body is no JSON.
pub record Response (F : Type 0) : Type 0 where
  pub status_code : ℕ
  pub url : Text
  pub body : Text
  pub json : Option (Value F)
  pub request_id : Option Text

-- A JSON object, or the error that is raised.
pub data Checked (F : Type 0) : Type 0 where
  object : Fields F → Checked F
  raised : ApiExn F → Checked F

module _ {F : Type 0} where
  abbrev status_of : Response F → Value F
  status_of response = int (pos response.status_code)

  bad_json : Response F → Value F → ApiExn F
  bad_json response request_id =
      let message = text "Received Invalid JSON response from " ++ response.url in
      let status = response.status_code in
      if ltb status 400
      then api_exn act_bad_response_error request_id (status_of response) message none
      else if leb 400 status && ltb status 500
      then api_exn act_bad_request_error request_id (status_of response) message none
      else api_exn act_internal_server_error request_id (status_of response) message none

  not_an_object : Response F → Value F → ApiExn F
  not_an_object response request_id =
      api_exn act_bad_response_error request_id (status_of response)
        (text "Received Invalid JSON response from " ++ response.url) none

  unfoldable pub checked_json : Response F → Value F → Option (Value F) → Checked F
  unfolding bad_json not_an_object
  checked_json response request_id none = raised (bad_json response request_id)
  checked_json response request_id (some (obj fs)) = object fs
  checked_json response request_id (some _) = raised (not_an_object response request_id)

  unfoldable pub assert_json_response : Response F → Value F → Checked F
  unfolding checked_json
  assert_json_response response request_id = checked_json response request_id response.json

  -- The header `x-amz-rid`, empty where it is missing.
  abbrev pub rid : Response F → Value F
  rid response = elim response.request_id [ none ↦ str [] | some t ↦ str t ]

module _ {F : Type 0} (numbers : Numbers F) where
  abbrev shown : Fields F → Text → Text
  shown fs key = to_text numbers (get_in fs key (str []))

  field_texts : Items F → List Text
  unfolding get_in to_text
  field_texts nil = []
  field_texts (cons (obj fs) vs) =
      (shown fs (text "name") ++ (text ": " ++ shown fs (text "message"))) ∷ field_texts vs
  field_texts (cons _ vs) = field_texts vs

  fields_message : Value F → Text
  unfolding field_texts join_comma
  fields_message (arr vs) = text " Fields: " ++ join_comma (field_texts vs)
  fields_message _ = []

  -- 400.
  bad_request : Response F → Fields F → ApiExn F
  unfolding get_in to_text fields_message
  bad_request response fs =
      let message = text "Validation failed: " ++ shown fs (text "message") in
      let reason = get_in fs (text "reason") null in
      let reason_text = text " Reason: " ++ to_text numbers reason in
      let status = status_of response in
      if is_text reason (text "AGENT_GUARDRAILS_TRIGGERED")
      then api_exn act_guardrails_error (rid response) status (message ++ reason_text)
          (some response.body)
      else if is_text reason (text "INVALID_INPUT")
      then api_exn act_bad_request_error (rid response) status
          (message ++ (reason_text ++ fields_message (get_in fs (text "fields") null)))
          (some response.body)
      else api_exn act_bad_request_error (rid response) status message (some response.body)

  -- 404.
  not_found : Response F → Fields F → ApiExn F
  unfolding get_in to_text
  not_found response fs =
      api_exn act_bad_request_error (rid response) (status_of response)
        (text "Resource not found: "
          ++ (shown fs (text "message")
              ++ (text " Resource ID: "
                  ++ (shown fs (text "resourceId")
                      ++ (text " Resource Type: " ++ shown fs (text "resourceType"))))))
        (some response.body)

  -- 429.
  too_many_requests : Response F → Fields F → ApiExn F
  unfolding get_in to_text
  too_many_requests response fs =
      let message = text "Request throttled: " ++ shown fs (text "message") in
      let throttle_type = get_in fs (text "throttleType") null in
      let longer = message ++ (text " Throttle Type: " ++ to_text numbers throttle_type) in
      let status = status_of response in
      if is_text throttle_type (text "DAILY_QUOTA_LIMIT_EXCEEDED")
      then api_exn act_daily_quota_exceeded_error (rid response) status longer (some response.body)
      else if is_text throttle_type (text "RATE_LIMIT_EXCEEDED")
      then api_exn act_rate_limit_exceeded_error (rid response) status longer (some response.body)
      else api_exn act_request_throttled_error (rid response) status message (some response.body)

  -- 500: a failure of the model is told from one of the service.
  internal_server_error : Response F → Fields F → ApiExn F
  unfolding get_in to_text truthy
  internal_server_error response fs =
      let reason = get_in fs (text "reason") null in
      let suffix : Text =
        if truthy numbers reason then text " Reason: " ++ to_text numbers reason else [] in
      let message = text "Internal server error: " ++ (shown fs (text "message") ++ suffix) in
      if is_text reason (text "InvalidModelGeneration")
        || is_text reason (text "RequestTokenLimitExceeded")
      then api_exn act_invalid_model_generation_error null null message (some response.body)
      else api_exn act_internal_server_error (rid response) (status_of response) message
          (some response.body)

  other_error : Response F → Fields F → ApiExn F
  unfolding get_in to_text
  other_error response fs =
      let status = response.status_code in
      let message = text "Unknown error: " ++ shown fs (text "message") in
      let cls =
        if leb 500 status && ltb status 600
        then act_server_error
        else if leb 400 status && ltb status 500
        then act_client_error
        else act_api_error in
      api_exn cls (rid response) (status_of response) message (some response.body)

  of_object : Response F → Fields F → ApiExn F
  unfolding bad_request not_found too_many_requests internal_server_error other_error
  of_object response fs =
      let status = response.status_code in
      if status == 400
      then bad_request response fs
      else if status == 404
      then not_found response fs
      else if status == 429
      then too_many_requests response fs
      else if status == 500
      then internal_server_error response fs
      else other_error response fs

  -- The error of the check is returned like any other.
  translate_checked : Response F → Checked F → ApiExn F
  unfolding of_object
  translate_checked response (object fs) = of_object response fs
  translate_checked response (raised e) = e

  unfoldable pub translate_response_error : Response F → ApiExn F
  unfolding translate_checked assert_json_response
  translate_response_error response =
      translate_checked response (assert_json_response response (rid response))
