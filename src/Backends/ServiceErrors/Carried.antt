-- ===== src/Backends/ServiceErrors/Carried.antt =====
-- What a translated error of the service keeps of it.
use nova_act.Prelude.{
  ℕ, ◌≡◌, ◌≤◌, ◌<◌, ◌+◌, refl, ◌⊎◌, inl, inr, ◌||◌, Bool, true, false, some, arith, Bool-cases,
}
use nova_act.Prelude.Text.{Text, text, text_eq}
use nova_act.Prelude.Int.{pos}
use nova_act.Errors.{plain}
use nova_act.Errors.Classes.{
  ExnClass, auth_error, act_api_error, act_guardrails_error, act_bad_request_error,
  act_request_throttled_error, act_daily_quota_exceeded_error, act_invalid_model_generation_error,
  act_internal_server_error, act_server_error, act_client_error,
}
use nova_act.Json.{Value, int, Numbers, is_text, null}
use nova_act.Backends.{ApiExn, api_exn, cls-api_exn}
use nova_act.Backends.ServiceErrors.{
  NovaActServiceError, carrying, in_range, access_denied, validation, resource_not_found,
  throttling, service_quota_exceeded, internal_server, unknown_error,
  translate_nova_act_service_error,
}

or-true : (a b : Bool) → (a || b) ≡ true → (a ≡ true) ⊎ (b ≡ true)
or-true true b h = inl refl
or-true false b h = inr h

or-false : (a b : Bool) → (a || b) ≡ false → ¬ ((a ≡ true) ⊎ (b ≡ true))
or-false a b h (inl e) = ground arith
or-false a b h (inr e) = ground arith

module _ {F : Type 0} (error : NovaActServiceError F) where
  abbrev pub HasCode : Text → Type 0
  HasCode code = is_text error.error_code code ≡ true

  abbrev pub LacksCode : Text → Type 0
  LacksCode code = is_text error.error_code code ≡ false

  abbrev pub HasReason : Text → Type 0
  HasReason reason = text_eq error.reason reason ≡ true

  -- The service says by the reason of an internal error that it is the model that failed.
  abbrev pub IsModelReason : Type 0
  IsModelReason =
      HasReason (text "InvalidModelGeneration") ⊎ HasReason (text "RequestTokenLimitExceeded")

  -- A code that the translation does not know.
  abbrev pub IsUnknown : Type 0
  IsUnknown =
      LacksCode (text "AccessDeniedException")
      × LacksCode (text "ValidationException")
      × LacksCode (text "ResourceNotFoundException")
      × LacksCode (text "ThrottlingException")
      × LacksCode (text "ServiceQuotaExceededException")
      × LacksCode (text "InternalServerException")

  -- An error of a class with the request, the status and the raw response of the service's error.
  abbrev pub Keeps : ExnClass → ApiExn F → Type 0
  Keeps c r =
      (r.exn.cls ≡ c)
      × (r.request_id ≡ error.request_id)
      × (r.status_code ≡ error.status_code)
      × (r.raw_response ≡ some error.raw_response)

-- A status of the hundred from `low` on.
abbrev pub IsFrom : {F : Type 0} → ℕ → Value F → Type 0
IsFrom low (int (pos n)) = (low ≤ n) × (n < low + 100)
IsFrom low _ = ⊥

-- The class of a translated error by the code, the reason and the status, and what it keeps.
pub data IsCarried {F : Type 0} (error : NovaActServiceError F) (r : ApiExn F) : Type 0 where
  refused :
      HasCode error (text "AccessDeniedException") → r.exn.cls ≡ auth_error → IsCarried error r
  guardrail :
      HasCode error (text "ValidationException")
      → HasReason error (text "GuardrailIntervened")
      → Keeps error act_guardrails_error r
      → IsCarried error r
  invalid :
      HasCode error (text "ValidationException")
      → ¬ HasReason error (text "GuardrailIntervened")
      → Keeps error act_bad_request_error r
      → IsCarried error r
  missing :
      HasCode error (text "ResourceNotFoundException")
      → Keeps error act_bad_request_error r
      → IsCarried error r
  throttled :
      HasCode error (text "ThrottlingException")
      → Keeps error act_request_throttled_error r
      → IsCarried error r
  over_quota :
      HasCode error (text "ServiceQuotaExceededException")
      → Keeps error act_daily_quota_exceeded_error r
      → IsCarried error r
  model_failed :
      HasCode error (text "InternalServerException")
      → IsModelReason error
      → r.exn.cls ≡ act_invalid_model_generation_error
      → r.raw_response ≡ some error.raw_response
      → IsCarried error r
  internal :
      HasCode error (text "InternalServerException")
      → ¬ IsModelReason error
      → Keeps error act_internal_server_error r
      → IsCarried error r
  server :
      IsUnknown error
      → IsFrom 500 error.status_code
      → Keeps error act_server_error r
      → IsCarried error r
  client :
      IsUnknown error
      → IsFrom 400 error.status_code
      → Keeps error act_client_error r
      → IsCarried error r
  other :
      IsUnknown error
      → ¬ IsFrom 500 error.status_code
      → ¬ IsFrom 400 error.status_code
      → Keeps error act_api_error r
      → IsCarried error r

module _ {F : Type 0} (numbers : Numbers F) where
  in_range-IsFrom : (low : ℕ) (v : Value F) → in_range numbers low v ≡ true → IsFrom low v
  unfolding in_range
  in_range-IsFrom low (int (pos n)) h = (ground arith, ground arith)
  in_range-IsFrom low _ h = absurd (ground arith)

  in_range-not-IsFrom : (low : ℕ) (v : Value F) → in_range numbers low v ≡ false → ¬ IsFrom low v
  unfolding in_range
  in_range-not-IsFrom low (int (pos n)) h p = ground arith
  in_range-not-IsFrom low _ h p = absurd p

module _ {F : Type 0} (numbers : Numbers F) (error : NovaActServiceError F) where
  keeps : (c : ExnClass) (message : Text) → Keeps error c (carrying numbers error c message)
  unfolding api_exn
  keeps c message = (
    cls-api_exn c error.request_id error.status_code message (some error.raw_response),
    refl,
    refl,
    refl,
  )

  validation-IsCarried :
      HasCode error (text "ValidationException") → IsCarried error (validation numbers error)
  unfolding validation
  validation-IsCarried code =
      elim (Bool-cases (text_eq error.reason (text "GuardrailIntervened"))) [
        | inl a ↦ rw (a, validation) (guardrail code a (keeps act_guardrails_error _))
        | inr a ↦
            rw (a, validation) (invalid code (λ h. ground arith) (keeps act_bad_request_error _))
      ]

  model_failure-IsCarried :
      HasCode error (text "InternalServerException")
      → IsModelReason error
      → IsCarried error (
          api_exn act_invalid_model_generation_error null null error.message
            (some error.raw_response))
  unfolding api_exn
  model_failure-IsCarried code reason =
      model_failed code reason
        (cls-api_exn {F = F} act_invalid_model_generation_error null null error.message
          (some error.raw_response))
        refl

  internal_server-IsCarried :
      HasCode error (text "InternalServerException")
      → IsCarried error (internal_server numbers error)
  unfolding internal_server
  internal_server-IsCarried code =
      elim (Bool-cases (
        text_eq error.reason (text "InvalidModelGeneration")
        || text_eq error.reason (text "RequestTokenLimitExceeded"))) [
          | inl a ↦ rw (a, internal_server) (model_failure-IsCarried code (or-true _ _ a))
          | inr a ↦
              rw (a, internal_server)
                (internal code (λ h. or-false _ _ a h) (keeps act_internal_server_error _))
        ]

  unknown_error-IsCarried : IsUnknown error → IsCarried error (unknown_error numbers error)
  unfolding unknown_error
  unknown_error-IsCarried unknown = elim (Bool-cases (in_range numbers 500 error.status_code)) [
    | inl a ↦
        rw (a, unknown_error)
          (server unknown (in_range-IsFrom numbers 500 _ a) (keeps act_server_error _))
    | inr a ↦ elim (Bool-cases (in_range numbers 400 error.status_code)) [
      | inl b ↦
          rw (a, b, unknown_error)
            (client unknown (in_range-IsFrom numbers 400 _ b) (keeps act_client_error _))
      | inr b ↦
          rw (a, b, unknown_error)
            (other unknown (in_range-not-IsFrom numbers 500 _ a)
              (in_range-not-IsFrom numbers 400 _ b) (keeps act_api_error _))
    ]
  ]

  -- What holds of each branch holds of the translation.
  translate-branches :
      (P : ApiExn F → Type 0)
      → (is_text error.error_code (text "AccessDeniedException") ≡ true
          → P (access_denied numbers error))
      → (HasCode error (text "ValidationException") → P (validation numbers error))
      → (HasCode error (text "ResourceNotFoundException") → P (resource_not_found numbers error))
      → (HasCode error (text "ThrottlingException") → P (throttling numbers error))
      → (HasCode error (text "ServiceQuotaExceededException")
          → P (service_quota_exceeded numbers error))
      → (is_text error.error_code (text "InternalServerException") ≡ true
          → P (internal_server numbers error))
      → (IsUnknown error → P (unknown_error numbers error))
      → P (translate_nova_act_service_error numbers error)
  unfolding translate_nova_act_service_error
  translate-branches P h1 h2 h3 h4 h5 h6 h7 =
      elim (Bool-cases (is_text error.error_code (text "AccessDeniedException"))) [
        | inl a ↦ rw a (h1 a)
        | inr a ↦ elim (Bool-cases (is_text error.error_code (text "ValidationException"))) [
          | inl b ↦ rw (a, b) (h2 b)
          | inr b ↦
              elim (Bool-cases (is_text error.error_code (text "ResourceNotFoundException"))) [
                | inl c ↦ rw (a, b, c) (h3 c)
                | inr c ↦
                    elim (Bool-cases (is_text error.error_code (text "ThrottlingException"))) [
                      | inl d ↦ rw (a, b, c, d) (h4 d)
                      | inr d ↦
                          elim (Bool-cases
                            (is_text error.error_code (text "ServiceQuotaExceededException"))) [
                              | inl e ↦ rw (a, b, c, d, e) (h5 e)
                              | inr e ↦
                                  elim (Bool-cases
                                    (is_text error.error_code (text "InternalServerException"))) [
                                      | inl f ↦ rw (a, b, c, d, e, f) (h6 f)
                                      | inr f ↦ rw (a, b, c, d, e, f) (h7 (a, b, c, d, e, f))
                                    ]
                            ]
                    ]
              ]
        ]
      ]

  -- The class of the error that is raised follows the service's error: its code; for a validation,
  -- whether a guardrail is the reason; for an internal error, whether the model is the reason; and
  -- for a code that is not known the hundreds of the status. The error keeps the request's id, the
  -- status and the raw response; of a failure of the model only the raw response is kept, and of a
  -- refused access none of them has to be.
  pub translate-IsCarried : IsCarried error (translate_nova_act_service_error numbers error)
  unfolding access_denied resource_not_found throttling service_quota_exceeded plain
  translate-IsCarried =
      translate-branches (IsCarried error) (λ a. refused a refl) validation-IsCarried
        (λ c. missing c (keeps act_bad_request_error _))
        (λ d. throttled d (keeps act_request_throttled_error _))
        (λ e. over_quota e (keeps act_daily_quota_exceeded_error _)) internal_server-IsCarried
        unknown_error-IsCarried
