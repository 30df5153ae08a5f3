-- ===== src/Errors/Classes.antt =====
-- src/nova_act/types/errors.py, src/nova_act/types/act_errors.py and AgentRedirectError of
-- src/nova_act/tools/browser/interface/types/agent_redirect_error.py: the classes of the exceptions,
-- with those of src/nova_act/cli/core/exceptions.py and the built-in classes that the modelled code
-- raises or catches.
use nova_act.Prelude.{ℕ, String, Option, none, some}

pub data ExnClass : Type 0 where
  base_exception exception keyboard_interrupt value_error type_error runtime_error : ExnClass
  assertion_error lookup_error key_error index_error os_error not_implemented_error : ExnClass
  agent_redirect_error : ExnClass
  nova_act_error start_failed stop_failed pause_failed resume_failed cancel_failed : ExnClass
  auth_error browser_auth_error iam_auth_error validation_failed client_not_started : ExnClass
  invalid_playwright_state invalid_page_state unsupported_operating_system : ExnClass
  invalid_input_length invalid_screen_resolution invalid_path invalid_url : ExnClass
  invalid_certificate invalid_timeout invalid_max_steps invalid_chrome_channel : ExnClass
  page_not_found_error interpreter_error unknown_tool_error invalid_tool_arguments_error : ExnClass
  invalid_trajectory_replay : ExnClass
  act_error act_timeout_error act_agent_error act_invalid_model_generation_error : ExnClass
  act_invalid_tool_error act_invalid_tool_schema_error act_agent_failed : ExnClass
  act_exceeded_max_steps_error act_execution_error act_canceled_error : ExnClass
  no_human_input_tool_available approve_canceled_error ui_takeover_canceled_error : ExnClass
  act_actuation_error act_tool_error act_mcp_error act_state_guardrail_error act_api_error :
      ExnClass
  act_client_error act_bad_request_error act_guardrails_error : ExnClass
  act_rate_limit_exceeded_error act_request_throttled_error act_daily_quota_exceeded_error :
      ExnClass
  act_server_error act_bad_response_error act_service_unavailable_error : ExnClass
  act_internal_server_error act_prompt_error act_model_error act_dispatch_error : ExnClass
  act_protocol_error act_invalid_input_error : ExnClass
  attribute_error arithmetic_error overflow_error file_access_error cli_error configuration_error :
      ExnClass
  cli_validation_error workflow_error workflow_name_arn_mismatch_error : ExnClass
  session_error session_not_found_error session_limit_reached browser_process_dead : ExnClass

-- The base class that is named first in the `class` line.
unfoldable pub superclass : ExnClass → Option ExnClass
superclass base_exception = none
superclass exception = some base_exception
superclass keyboard_interrupt = some base_exception
superclass value_error = some exception
superclass type_error = some exception
superclass runtime_error = some exception
superclass assertion_error = some exception
superclass lookup_error = some exception
superclass key_error = some lookup_error
superclass index_error = some lookup_error
superclass os_error = some exception
superclass not_implemented_error = some runtime_error
superclass agent_redirect_error = some exception
superclass nova_act_error = some exception
superclass start_failed = some nova_act_error
superclass stop_failed = some nova_act_error
superclass pause_failed = some nova_act_error
superclass resume_failed = some nova_act_error
superclass cancel_failed = some nova_act_error
superclass auth_error = some nova_act_error
superclass browser_auth_error = some nova_act_error
superclass iam_auth_error = some nova_act_error
superclass validation_failed = some nova_act_error
superclass client_not_started = some validation_failed
superclass invalid_playwright_state = some nova_act_error
superclass invalid_page_state = some nova_act_error
superclass unsupported_operating_system = some validation_failed
superclass invalid_input_length = some validation_failed
superclass invalid_screen_resolution = some validation_failed
superclass invalid_path = some validation_failed
superclass invalid_url = some validation_failed
superclass invalid_certificate = some validation_failed
superclass invalid_timeout = some validation_failed
superclass invalid_max_steps = some validation_failed
superclass invalid_chrome_channel = some validation_failed
superclass page_not_found_error = some validation_failed
superclass interpreter_error = some nova_act_error
superclass unknown_tool_error = some interpreter_error
superclass invalid_tool_arguments_error = some interpreter_error
superclass invalid_trajectory_replay = some nova_act_error
superclass act_error = some nova_act_error
superclass act_timeout_error = some act_error
superclass act_agent_error = some act_error
superclass act_invalid_model_generation_error = some act_agent_error
superclass act_invalid_tool_error = some act_invalid_model_generation_error
superclass act_invalid_tool_schema_error = some act_invalid_model_generation_error
superclass act_agent_failed = some act_agent_error
superclass act_exceeded_max_steps_error = some act_agent_error
superclass act_execution_error = some act_error
superclass act_canceled_error = some act_execution_error
superclass no_human_input_tool_available = some act_invalid_model_generation_error
superclass approve_canceled_error = some act_canceled_error
superclass ui_takeover_canceled_error = some act_canceled_error
superclass act_actuation_error = some act_execution_error
superclass act_tool_error = some act_execution_error
superclass act_mcp_error = some act_tool_error
superclass act_state_guardrail_error = some act_execution_error
superclass act_api_error = some act_error
superclass act_client_error = some act_api_error
superclass act_bad_request_error = some act_client_error
superclass act_guardrails_error = some act_client_error
superclass act_rate_limit_exceeded_error = some act_client_error
superclass act_request_throttled_error = some act_rate_limit_exceeded_error
superclass act_daily_quota_exceeded_error = some act_rate_limit_exceeded_error
superclass act_server_error = some act_api_error
superclass act_bad_response_error = some act_server_error
superclass act_service_unavailable_error = some act_server_error
superclass act_internal_server_error = some act_server_error
superclass act_prompt_error = some act_error
superclass act_model_error = some act_prompt_error
superclass act_dispatch_error = some act_client_error
superclass act_protocol_error = some act_api_error
superclass act_invalid_input_error = some act_client_error
superclass attribute_error = some exception
superclass arithmetic_error = some exception
superclass overflow_error = some arithmetic_error
superclass file_access_error = some exception
superclass cli_error = some exception
superclass configuration_error = some cli_error
superclass cli_validation_error = some cli_error
superclass workflow_error = some cli_error
superclass workflow_name_arn_mismatch_error = some workflow_error
superclass session_error = some cli_error
superclass session_not_found_error = some session_error
superclass session_limit_reached = some session_error
superclass browser_process_dead = some session_error

-- The second class of the `class` line; `ABC` plays no part in `except`.
unfoldable pub second_base : ExnClass → Option ExnClass
second_base session_not_found_error = some key_error
second_base _ = none

-- A number for each class, by which classes are compared.
unfoldable pub tag : ExnClass → ℕ
tag base_exception = 0
tag exception = 1
tag keyboard_interrupt = 2
tag value_error = 3
tag type_error = 4
tag runtime_error = 5
tag assertion_error = 6
tag lookup_error = 7
tag key_error = 8
tag index_error = 9
tag os_error = 10
tag not_implemented_error = 11
tag agent_redirect_error = 12
tag nova_act_error = 13
tag start_failed = 14
tag stop_failed = 15
tag pause_failed = 16
tag resume_failed = 17
tag cancel_failed = 18
tag auth_error = 19
tag browser_auth_error = 20
tag iam_auth_error = 21
tag validation_failed = 22
tag client_not_started = 23
tag invalid_playwright_state = 24
tag invalid_page_state = 25
tag unsupported_operating_system = 26
tag invalid_input_length = 27
tag invalid_screen_resolution = 28
tag invalid_path = 29
tag invalid_url = 30
tag invalid_certificate = 31
tag invalid_timeout = 32
tag invalid_max_steps = 33
tag invalid_chrome_channel = 34
tag page_not_found_error = 35
tag interpreter_error = 36
tag unknown_tool_error = 37
tag invalid_tool_arguments_error = 38
tag invalid_trajectory_replay = 39
tag act_error = 40
tag act_timeout_error = 41
tag act_agent_error = 42
tag act_invalid_model_generation_error = 43
tag act_invalid_tool_error = 44
tag act_invalid_tool_schema_error = 45
tag act_agent_failed = 46
tag act_exceeded_max_steps_error = 47
tag act_execution_error = 48
tag act_canceled_error = 49
tag no_human_input_tool_available = 50
tag approve_canceled_error = 51
tag ui_takeover_canceled_error = 52
tag act_actuation_error = 53
tag act_tool_error = 54
tag act_mcp_error = 55
tag act_state_guardrail_error = 56
tag act_api_error = 57
tag act_client_error = 58
tag act_bad_request_error = 59
tag act_guardrails_error = 60
tag act_rate_limit_exceeded_error = 61
tag act_request_throttled_error = 62
tag act_daily_quota_exceeded_error = 63
tag act_server_error = 64
tag act_bad_response_error = 65
tag act_service_unavailable_error = 66
tag act_internal_server_error = 67
tag act_prompt_error = 68
tag act_model_error = 69
tag act_dispatch_error = 70
tag act_protocol_error = 71
tag act_invalid_input_error = 72
tag attribute_error = 73
tag arithmetic_error = 74
tag overflow_error = 75
tag file_access_error = 76
tag cli_error = 77
tag configuration_error = 78
tag cli_validation_error = 79
tag workflow_error = 80
tag workflow_name_arn_mismatch_error = 81
tag session_error = 82
tag session_not_found_error = 83
tag session_limit_reached = 84
tag browser_process_dead = 85

-- `cls.__name__`.
unfoldable pub class_name : ExnClass → String
class_name base_exception = "BaseException"
class_name exception = "Exception"
class_name keyboard_interrupt = "KeyboardInterrupt"
class_name value_error = "ValueError"
class_name type_error = "TypeError"
class_name runtime_error = "RuntimeError"
class_name assertion_error = "AssertionError"
class_name lookup_error = "LookupError"
class_name key_error = "KeyError"
class_name index_error = "IndexError"
class_name os_error = "OSError"
class_name not_implemented_error = "NotImplementedError"
class_name agent_redirect_error = "AgentRedirectError"
class_name nova_act_error = "NovaActError"
class_name start_failed = "StartFailed"
class_name stop_failed = "StopFailed"
class_name pause_failed = "PauseFailed"
class_name resume_failed = "ResumeFailed"
class_name cancel_failed = "CancelFailed"
class_name auth_error = "AuthError"
class_name browser_auth_error = "BrowserAuthError"
class_name iam_auth_error = "IAMAuthError"
class_name validation_failed = "ValidationFailed"
class_name client_not_started = "ClientNotStarted"
class_name invalid_playwright_state = "InvalidPlaywrightState"
class_name invalid_page_state = "InvalidPageState"
class_name unsupported_operating_system = "UnsupportedOperatingSystem"
class_name invalid_input_length = "InvalidInputLength"
class_name invalid_screen_resolution = "InvalidScreenResolution"
class_name invalid_path = "InvalidPath"
class_name invalid_url = "InvalidURL"
class_name invalid_certificate = "InvalidCertificate"
class_name invalid_timeout = "InvalidTimeout"
class_name invalid_max_steps = "InvalidMaxSteps"
class_name invalid_chrome_channel = "InvalidChromeChannel"
class_name page_not_found_error = "PageNotFoundError"
class_name interpreter_error = "InterpreterError"
class_name unknown_tool_error = "UnknownToolError"
class_name invalid_tool_arguments_error = "InvalidToolArgumentsError"
class_name invalid_trajectory_replay = "InvalidTrajectoryReplay"
class_name act_error = "ActError"
class_name act_timeout_error = "ActTimeoutError"
class_name act_agent_error = "ActAgentError"
class_name act_invalid_model_generation_error = "ActInvalidModelGenerationError"
class_name act_invalid_tool_error = "ActInvalidToolError"
class_name act_invalid_tool_schema_error = "ActInvalidToolSchemaError"
class_name act_agent_failed = "ActAgentFailed"
class_name act_exceeded_max_steps_error = "ActExceededMaxStepsError"
class_name act_execution_error = "ActExecutionError"
class_name act_canceled_error = "ActCanceledError"
class_name no_human_input_tool_available = "NoHumanInputToolAvailable"
class_name approve_canceled_error = "ApproveCanceledError"
class_name ui_takeover_canceled_error = "UiTakeoverCanceledError"
class_name act_actuation_error = "ActActuationError"
class_name act_tool_error = "ActToolError"
class_name act_mcp_error = "ActMCPError"
class_name act_state_guardrail_error = "ActStateGuardrailError"
class_name act_api_error = "ActAPIError"
class_name act_client_error = "ActClientError"
class_name act_bad_request_error = "ActBadRequestError"
class_name act_guardrails_error = "ActGuardrailsError"
class_name act_rate_limit_exceeded_error = "ActRateLimitExceededError"
class_name act_request_throttled_error = "ActRequestThrottledError"
class_name act_daily_quota_exceeded_error = "ActDailyQuotaExceededError"
class_name act_server_error = "ActServerError"
class_name act_bad_response_error = "ActBadResponseError"
class_name act_service_unavailable_error = "ActServiceUnavailableError"
class_name act_internal_server_error = "ActInternalServerError"
class_name act_prompt_error = "ActPromptError"
class_name act_model_error = "ActModelError"
class_name act_dispatch_error = "ActDispatchError"
class_name act_protocol_error = "ActProtocolError"
class_name act_invalid_input_error = "ActInvalidInputError"
class_name attribute_error = "AttributeError"
class_name arithmetic_error = "ArithmeticError"
class_name overflow_error = "OverflowError"
class_name file_access_error = "_FileAccessError"
class_name cli_error = "NovaActCLIError"
class_name configuration_error = "ConfigurationError"
class_name cli_validation_error = "ValidationError"
class_name workflow_error = "WorkflowError"
class_name workflow_name_arn_mismatch_error = "WorkflowNameArnMismatchError"
class_name session_error = "SessionError"
class_name session_not_found_error = "SessionNotFoundError"
class_name session_limit_reached = "SessionLimitReached"
class_name browser_process_dead = "BrowserProcessDead"

-- The `_DEFAULT_MESSAGE` that a class body or `set_default_message` gives the class itself.
unfoldable pub own_message : ExnClass → Option String
own_message act_error = some "An error occurred during act()"
own_message act_timeout_error =
    some "Timed out; try increasing the 'timeout' kwarg on the 'act' call"
own_message act_invalid_model_generation_error =
    some "The model output could not be processed. Please try a different request."
own_message act_invalid_tool_error = some "The requested tool does not exist."
own_message act_invalid_tool_schema_error = some "Tool arguments did not match the expected schema."
own_message act_agent_failed = some "The requested action was not possible"
own_message act_exceeded_max_steps_error = some "Allowed Steps Exceeded"
own_message act_canceled_error = some "Act Canceled."
own_message no_human_input_tool_available =
    some "Human input required to proceed. Implement and provide human_input_callbacks."
own_message approve_canceled_error = some "Act Canceled during Human Approval."
own_message ui_takeover_canceled_error = some "Act Canceled during Human UI Takeover."
own_message act_actuation_error = some "Encountered error actuating model actions."
own_message act_tool_error = some "Failed to invoke a tool."
own_message act_mcp_error = some "Failed to invoke MCP tool."
own_message act_state_guardrail_error = some "Blocked by agent state guardrail"
own_message act_client_error = some "Client error calling NovaAct Service."
own_message act_bad_request_error = some "Bad request"
own_message act_guardrails_error =
    some
      "I'm sorry, but I can't engage in unsafe or inappropriate actions. Please try a different request."
own_message act_rate_limit_exceeded_error =
    some
      "We have quota limits to ensure sufficient capacity for all users. If you need dedicated quota for a more ambitious project, please migrate your workflow to the Nova Act AWS Service (https://aws.amazon.com/nova/act/)."
own_message act_request_throttled_error =
    some
      "Too many requests in a short time period. We have quota limits to ensure sufficient capacity for all users. If you need dedicated quota for a more ambitious project, please migrate your workflow to the Nova Act AWS Service (https://aws.amazon.com/nova/act/)."
own_message act_daily_quota_exceeded_error =
    some
      "Daily API limit exceeded. We have quota limits to ensure sufficient capacity for all users. If you need dedicated quota for a more ambitious project, please migrate your workflow to the Nova Act AWS Service (https://aws.amazon.com/nova/act/)."
own_message act_server_error = some "Error calling NovaAct Service."
own_message act_bad_response_error = some "Bad Response"
own_message act_service_unavailable_error = some "NovaAct Service Unavailable"
own_message act_internal_server_error = some "Internal Server Error"
own_message _ = none
