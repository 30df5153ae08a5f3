-- ===== src/Backends/ResponseErrors/Status.antt =====
-- How the class of a translated error follows the status of the response.
use nova_act.Prelude.{
  ℕ, ltb, leb, ◌==◌, ◌≤◌, ◌<◌, ◌≡◌, refl, ◌⊎◌, inl, inr, ◌&&◌, ◌||◌, true, Option, none, some,
  arith, Bool-cases,
}
use nova_act.Prelude.Text.{text}
use nova_act.Errors.{is_subclass}
use nova_act.Errors.Classes.{
  ExnClass, act_client_error, act_server_error, act_invalid_model_generation_error,
  act_bad_response_error,
}
use nova_act.Json.{Value, Fields, obj, null, Numbers, is_text}
use nova_act.Backends.{cls-api_exn, get_in}
use nova_act.Backends.ResponseErrors.{
  Response, rid, bad_json, not_an_object, checked_json, assert_json_response, bad_request,
  not_found, too_many_requests, internal_server_error, other_error, of_object, translate_checked,
  translate_response_error,
}

-- A client error is one that another request may avoid.
abbrev pub IsClientError : ExnClass → Type 0
IsClientError c = is_subclass c act_client_error ≡ true

-- A failure of the service, or of the model that it runs.
abbrev pub IsServiceFailure : ExnClass → Type 0
IsServiceFailure c =
    (is_subclass c act_server_error ≡ true) ⊎ (c ≡ act_invalid_model_generation_error)

-- The class agrees with the hundreds of the status.
abbrev pub Matches : ℕ → ExnClass → Type 0
Matches status c =
    ((400 ≤ status) × (status < 500) × IsClientError c)
    ⊎ ((500 ≤ status) × (status < 600) × IsServiceFailure c)
    ⊎ (status < 400)
    ⊎ (600 ≤ status)

of_client :
    (status : ℕ) (c : ExnClass) → 400 ≤ status → status < 500 → IsClientError c → Matches status c
of_client status c low high client = inl (low, high, client)

of_service : (status : ℕ) (c : ExnClass) → 500 ≤ status → IsServiceFailure c → Matches status c
of_service status c h failure = elim (Bool-cases (ltb status 600)) [
  | inl low ↦ inr (inl (h, ground arith, failure))
  | inr high ↦ inr (inr (inr (ground arith)))
]

module _ {F : Type 0} (response : Response F) where
  bad_json-Matches : (r : Value F) → Matches response.status_code (bad_json response r).exn.cls
  unfolding bad_json is_subclass
  bad_json-Matches r = elim (Bool-cases (ltb response.status_code 400)) [
    | inl low ↦ inr (inr (inl (ground arith)))
    | inr high ↦ elim (Bool-cases (leb 400 response.status_code && ltb response.status_code 500)) [
      | inl client ↦
          of_client response.status_code _ (ground arith) (ground arith)
            (rw (high, client, cls-api_exn) refl)
      | inr server ↦
          of_service response.status_code _ (ground arith)
            (inl (rw (high, server, cls-api_exn) refl))
    ]
  ]

module _ {F : Type 0} (numbers : Numbers F) (response : Response F) (fs : Fields F) where
  bad_request-client : IsClientError (bad_request numbers response fs).exn.cls
  unfolding bad_request is_subclass
  bad_request-client =
      let reason = get_in fs (text "reason") null in
      elim (Bool-cases (is_text reason (text "AGENT_GUARDRAILS_TRIGGERED"))) [
        | inl a ↦ rw (a, bad_request, cls-api_exn) refl
        | inr a ↦ elim (Bool-cases (is_text reason (text "INVALID_INPUT"))) [
          | inl b ↦ rw (a, b, bad_request, cls-api_exn) refl
          | inr b ↦ rw (a, b, bad_request, cls-api_exn) refl
        ]
      ]

  not_found-client : IsClientError (not_found numbers response fs).exn.cls
  unfolding not_found is_subclass
  not_found-client = rw (not_found, cls-api_exn) refl

  too_many_requests-client : IsClientError (too_many_requests numbers response fs).exn.cls
  unfolding too_many_requests is_subclass
  too_many_requests-client =
      let throttle_type = get_in fs (text "throttleType") null in
      elim (Bool-cases (is_text throttle_type (text "DAILY_QUOTA_LIMIT_EXCEEDED"))) [
        | inl a ↦ rw (a, too_many_requests, cls-api_exn) refl
        | inr a ↦ elim (Bool-cases (is_text throttle_type (text "RATE_LIMIT_EXCEEDED"))) [
          | inl b ↦ rw (a, b, too_many_requests, cls-api_exn) refl
          | inr b ↦ rw (a, b, too_many_requests, cls-api_exn) refl
        ]
      ]

  internal_server_error-failure :
      IsServiceFailure (internal_server_error numbers response fs).exn.cls
  unfolding internal_server_error is_subclass
  internal_server_error-failure =
      let reason = get_in fs (text "reason") null in
      elim (Bool-cases (
        is_text reason (text "InvalidModelGeneration")
        || is_text reason (text "RequestTokenLimitExceeded"))) [
          | inl a ↦ inr (rw (a, internal_server_error, cls-api_exn) refl)
          | inr a ↦ inl (rw (a, internal_server_error, cls-api_exn) refl)
        ]

  other_error-Matches : Matches response.status_code (other_error numbers response fs).exn.cls
  unfolding other_error is_subclass
  other_error-Matches =
      elim (Bool-cases (leb 500 response.status_code && ltb response.status_code 600)) [
        | inl a ↦
            of_service response.status_code _ (ground arith)
              (inl (rw (a, other_error, cls-api_exn) refl))
        | inr a ↦ elim (Bool-cases (leb 400 response.status_code && ltb response.status_code 500)) [
          | inl b ↦
              of_client response.status_code _ (ground arith) (ground arith)
                (rw (a, b, other_error, cls-api_exn) refl)
          | inr b ↦ elim (Bool-cases (leb 600 response.status_code)) [
            | inl c ↦ inr (inr (inr (ground arith)))
            | inr c ↦ inr (inr (inl (ground arith)))
          ]
        ]
      ]

  of_object-Matches : Matches response.status_code (of_object numbers response fs).exn.cls
  unfolding of_object
  of_object-Matches = elim (Bool-cases (response.status_code == 400)) [
    | inl a ↦
        of_client response.status_code _ (ground arith) (ground arith) (rw a bad_request-client)
    | inr a ↦ elim (Bool-cases (response.status_code == 404)) [
      | inl b ↦
          of_client response.status_code _ (ground arith) (ground arith)
            (rw (a, b) not_found-client)
      | inr b ↦ elim (Bool-cases (response.status_code == 429)) [
        | inl c ↦
            of_client response.status_code _ (ground arith) (ground arith)
              (rw (a, b, c) too_many_requests-client)
        | inr c ↦ elim (Bool-cases (response.status_code == 500)) [
          | inl d ↦
              of_service response.status_code _ (ground arith)
                (rw (a, b, c, d) internal_server_error-failure)
          | inr d ↦ rw (a, b, c, d) other_error-Matches
        ]
      ]
    ]
  ]

-- The class by the body: by the status where it is a JSON object or no JSON at all.
abbrev pub Follows : {F : Type 0} → ℕ → Option (Value F) → ExnClass → Type 0
Follows status none c = Matches status c
Follows status (some (obj fs)) c = Matches status c
Follows status (some v) c = c ≡ act_bad_response_error

module _ {F : Type 0} (numbers : Numbers F) (response : Response F) where
  checked-Follows :
      (r : Value F) (json : Option (Value F))
      → Follows response.status_code json
          (translate_checked numbers response (checked_json response r json)).exn.cls
  unfolding translate_checked checked_json not_an_object
  checked-Follows r none = bad_json-Matches response r
  checked-Follows r (some (obj fs)) = of_object-Matches numbers response fs
  checked-Follows r (some _) = cls-api_exn act_bad_response_error r _ _ none

-- Where the body is a JSON object or no JSON at all, the class of the error agrees with the
-- status: 400 to 499 give a client error, and 500 to 599 an error of the server or of the model
-- that it runs. Any other body gives an ActBadResponseError, whatever the status.
pub translate-Matches :
    {F : Type 0} (numbers : Numbers F) (response : Response F)
    → Follows response.status_code response.json (translate_response_error numbers response).exn.cls
unfolding translate_response_error assert_json_response
translate-Matches numbers response = checked-Follows numbers response (rid response) response.json
