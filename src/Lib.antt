-- ===== src/Lib.antt =====
-- Nova Act: the act loop of the Python SDK and what stands around it.
--
-- A client hands the SDK a prompt. `ActDispatcher.dispatch` observes the page, asks the model for a
-- program, compiles and runs it, and goes on until the program returns, an error ends the act or a
-- limit is met. The development models that loop and every component that it calls.
--
-- Exceptions are values (`Errors`), and code that changes something and may raise is a function
-- from a state to a result and a state (`Effect`). What belongs to no file of the repository, or
-- acts on a browser, a network or a terminal, is a parameter: a world of any type, with functions
-- on it.
--
--   Errors         src/nova_act/types/errors.py and act_errors.py: the classes, issubclass, messages
--   Metadata       src/nova_act/types/act_metadata.py: the record and the trajectory file's name
--   WaitTracker    src/nova_act/util/human_wait_time_tracker.py
--   HumanInput     src/nova_act/tools/human/interface/human_input_callback.py: approve, ui_takeover
--   Controller     src/nova_act/impl/controller.py and keyboard_event_watcher.py: the calls of the
--                  threads are one sequence, as each holds the controller's lock; other threads may
--                  act while it is entered, between the start of the watcher and the reset
--   Compatibility  src/nova_act/tools/compatibility.py: callable_tool
--   Program        src/nova_act/impl/program/base.py: calls, results, compile
--   Runner         src/nova_act/impl/program/runner.py: ProgramRunner.run
--   Step           src/nova_act/types/state/step.py
--   Act            src/nova_act/types/state/act.py and act_result.py
--   Inputs         src/nova_act/impl/inputs.py: the checks on what a client passes in
--   Dispatcher     src/nova_act/impl/dispatcher.py: the loop (Loop) and dispatch (Dispatch)
--   TextOps        `re.sub` and `str.replace` as far as the decoding of texts uses them
--   DecodeString   src/nova_act/util/decode_string.py
--   Json, Ast      JSON values; the readers of single nodes in src/nova_act/impl/interpreter.py
--   Arguments      src/nova_act/util/argument_preparation.py
--   Interpreter    src/nova_act/impl/interpreter.py: interpret_ast
--   Backends       src/nova_act/impl/backends: the step of an AWL backend (base.py, Awl), and the
--                  errors made of a service's answer (common.py and sunburst/client.py,
--                  ResponseErrors; burst/errors.py, ServiceErrors); the step of a burst backend
--                  (burst/backend.py and burst/types.py, Burst)
--   Paths          os.path, pathlib and fnmatch on POSIX; UrlParse: urllib.parse.urlparse
--   PathValidator  src/nova_act/util/path_validator.py
--   Url            src/nova_act/util/url.py: validate_url
--   Workflow       src/nova_act/types/workflow.py: a workflow's run and the decorator
--   Cli            src/nova_act/cli/core/state_manager.py: the lock and the state file, with the steps
--                  of several processes in any order (State); cli/workflow/workflow_manager.py:
--                  the methods that change the workflows (Workflows); names and resource names (Names);
--                  cli/browser/services/session: the browser sessions of one process over the files
--                  that all share (Browser): models.py (Models), the store (Sessions), pruner.py
--                  (Pruning), closer.py (Closing), create_session (Creating), lists (Listing)
--   Effect/Keeps   what code keeps of the state, whether it returns or raises
--   Fallible       chains of code that may raise and changes nothing
--   Prelude        lists, texts (code points), dictionaries, signed numbers
--   Examples       concrete worlds and inputs at which the theorems are applied
--
-- Times are whole numbers of a unit of the clock; differences of times are signed. The loop of
-- `dispatch` runs on `max_steps + 1` rounds of fuel, which the step check makes enough. Waiting
-- while paused has no bound in the code; the model polls a given number of times and then says
-- that the act is still paused. The base classes of an exception, both where a `class` line names
-- two, are searched on a fuel of 8, which is more than the hierarchy is deep.
--
-- The interpreter's parser of object expressions runs on fuel one above the nesting of the value.
-- Conversions of numbers, jsonschema's validation, and what the operating system says of `~`, the
-- current directory and a URL's path are parameters.
--
-- A browser session's launch, the end of its process and the start of a client are parameters; a
-- write of its file succeeds, and the system is not macOS, which has further ways to set it up.
--
-- Not modelled: the client facade, the backends' HTTP and AWS requests, Playwright and the scripts
-- run in the page, the writers of HTML files, the commands of the command line tools, credentials,
-- logging and the terminal. They are glue over services or printing. The asyncio package repeats
-- the same statements with `await`; the model reads the synchronous files.
pub mod Prelude
pub mod TextOps
pub mod DecodeString
pub mod Paths
pub mod UrlParse
pub mod PathValidator
pub mod Url
pub mod Workflow
pub mod Fallible
pub mod Json
pub mod Arguments
pub mod Ast
pub mod Interpreter
pub mod Backends
pub mod Metadata
pub mod Errors
pub mod Effect
pub mod WaitTracker
pub mod HumanInput
pub mod Controller
pub mod Compatibility
pub mod Program
pub mod Step
pub mod Act
pub mod Runner
pub mod Inputs
pub mod Dispatcher
pub mod Cli
pub mod Examples
