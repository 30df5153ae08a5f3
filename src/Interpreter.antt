-- ===== src/Interpreter.antt =====
-- src/nova_act/impl/interpreter.py: the statements of the model's program, made calls of tools.
pub mod Checked
use nova_act.Prelude.{
  ℕ, zero, suc, ◌+◌, not, ◌&&◌, ◌||◌, Bool, true, false, Option, none, some, List, [], ◌∷◌, ◌++◌,
  last?, map, if◌then◌else◌,
}
use nova_act.Prelude.Text.{Text, text, text_eq, one_of, Dict, insert, lookup}
use nova_act.Errors.{Exn, Result, ok, err, plain}
use nova_act.Errors.Classes.{
  value_error, key_error, attribute_error, runtime_error, type_error, interpreter_error,
}
use nova_act.Fallible.{◌>>=◌, map_results, except_as}
use nova_act.DecodeString.{safe_string}
use nova_act.Json.{
  Value, Items, Fields, null, bool, int, float, str, arr, obj, field?, item, first_item, get,
  iterate, is_text, is_null, fields_of, Numbers, truthy, to_text,
}
use nova_act.Arguments.{prepare_kwargs_for_actuation_calls}
use nova_act.Program.{Call}
use nova_act.Ast.{safe_text, new_call, extract_arg_value, is_call, is_think}
use nova_act.Json.Depth.{depth}

-- What `jsonschema.validate` does: it returns, raises a ValidationError with a message, or raises
-- another exception.
pub data Verdict : Type 0 where
  valid : Verdict
  invalid : Text → Verdict
  broken : Exn → Verdict

-- What a tool says of itself, and the validator of the library `jsonschema`.
pub record Schemas (F Tool : Type 0) : Type 0 where
  pub tool_name : Tool → Text
  pub input_schema : Tool → Value F
  pub validate : Dict (Value F) → Value F → Verdict

-- The functions whose arguments the interpreter prepares.
abbrev pub actuations : List Text
actuations =
    text "agentClick"
    ∷ text "agentHover"
    ∷ text "agentType"
    ∷ text "agentScroll"
    ∷ text "goToUrl"
    ∷ text "wait"
    ∷ []

-- The last statement but one.
abbrev pub previous? {ℓ} : {A : Type ℓ} → List A → Option A
previous? [] = none
previous? (x ∷ []) = none
previous? (x ∷ (y ∷ [])) = some x
previous? (x ∷ (y ∷ (z ∷ l))) = previous? (y ∷ (z ∷ l))

module _ {F Tool : Type 0} (numbers : Numbers F) (schemas : Schemas F Tool) where
  -- The message of a missing key is the key.
  unfoldable pub find_tool : Text → Dict Tool → Result Tool
  find_tool name tool_map = elim (lookup name tool_map) [
    | none ↦ err (plain key_error name)
    | some tool ↦ ok tool
  ]

  -- The message goes on with that of the validator.
  unfoldable pub validated_call : Tool → Text → Dict (Value F) → Result (Call (Value F))
  validated_call tool call_id kwargs = elim (schemas.validate kwargs (schemas.input_schema tool)) [
    | valid ↦ ok (record {
      name = schemas.tool_name tool;
      kwargs = kwargs;
      id = call_id;
      is_tool = false;
      is_return = false;
    })
    | invalid message ↦
        err (plain interpreter_error (text "Received invalid arguments: " ++ message))
    | broken e ↦ err e
  ]

  think_call : Value F → Result (Option (Call (Value F)))
  unfolding safe_text item first_item
  think_call expr = do
    args ← item expr (text "args")
    arg ← first_item args
    value ← item arg (text "value")
    think_value ← safe_text value
    ok (some (new_call (text "think") ((text "value", think_value) ∷ [])))

  think_of : Value F → Result (Option (Call (Value F)))
  unfolding is_call is_think think_call
  think_of prev_stmt = do
    calls ← is_call prev_stmt
    if calls
        then (do
          expr ← item prev_stmt (text "expr")
          thinks ← is_think expr
          if thinks then think_call expr else ok none)
        else ok none

  -- A thought stands before the statement that acts.
  unfoldable pub process_think_statements : List (Value F) → Result (Option (Call (Value F)))
  unfolding think_of
  process_think_statements statements = elim (previous? statements) [
    | none ↦ ok none
    | some prev_stmt ↦ think_of prev_stmt
  ]

  return_text : Value F → Result (Value F)
  unfolding safe_text
  return_text null = ok null
  return_text v = safe_text v

  unfoldable pub return_call : Value F → Result (Call (Value F))
  unfolding return_text get item truthy
  return_call last_stmt = do
    expr ← get last_stmt (text "expr") null
    value ← (if truthy numbers expr then item expr (text "value") >>= return_text else ok null)
    ok (new_call (text "return") ((text "value", value) ∷ []))

  has_expr : Value F → Bool
  unfolding field?
  has_expr (obj fs) = elim (field? (text "expr") fs) [ none ↦ false | some v ↦ true ]
  has_expr _ = false

  error_message : Value F → Result (Value F)
  unfolding safe_text item first_item
  error_message args = do arg ← first_item args; value ← item arg (text "value"); safe_text value

  new_expression_message : Value F → Result (Value F)
  unfolding error_message item truthy
  new_expression_message expr = do
    kind ← item expr (text "kind")
    if is_text kind (text "NewExpression")
        then (do
          args ← item expr (text "args")
          if truthy numbers args then error_message args else ok (str []))
        else ok (str [])

  -- Without a message the thrown text is empty.
  unfoldable pub throw_call : Value F → Dict Tool → Result (Call (Value F))
  unfolding has_expr new_expression_message find_tool validated_call
  throw_call last_stmt tool_map = do
    error_msg ←
        (if has_expr last_stmt
          then item last_stmt (text "expr") >>= new_expression_message
          else ok (str []))
    tool ← find_tool (text "throw") tool_map
    validated_call tool (text "throw") ((text "value", error_msg) ∷ [])

  abbrev as_interpreter_error : Exn → Exn
  as_interpreter_error e = plain interpreter_error e.message

  -- The name of a function that is called; one that is no text is no actuation.
  abbrev pub function_name : Value F → Option Text
  function_name (str s) = some s
  function_name v = none

  unfoldable pub actuation_call : Option Text → List (Value F) → Dict Tool → Result (Call (Value F))
  unfolding one_of find_tool validated_call except_as prepare_kwargs_for_actuation_calls
  actuation_call none args tool_map = err (plain interpreter_error (text "Unknown function"))
  actuation_call (some fn_name) args tool_map =
      if one_of fn_name actuations
      then except_as value_error as_interpreter_error (do
        kwargs ← prepare_kwargs_for_actuation_calls numbers fn_name args
        tool ← find_tool fn_name tool_map
        validated_call tool fn_name kwargs)
      else err (plain interpreter_error (text "Unknown function: " ++ fn_name))

  unfoldable pub function_call : Value F → Dict Tool → Result (Call (Value F))
  unfolding actuation_call item iterate map_results extract_arg_value
  function_call last_stmt tool_map = do
    expr ← item last_stmt (text "expr")
    func ← item expr (text "func")
    fn_name ← item func (text "var")
    call_args ← item expr (text "args")
    nodes ← iterate call_args
    args ← map_results (extract_arg_value numbers) nodes
    actuation_call (function_name fn_name) args tool_map

  -- The call that the last statement stands for, by its kind.
  unfoldable pub last_call : Value F → Value F → Dict Tool → Result (Call (Value F))
  unfolding return_call throw_call function_call is_call
  last_call stmt_kind last_stmt tool_map =
      if is_text stmt_kind (text "Return")
      then return_call last_stmt
      else if is_text stmt_kind (text "ThrowStatement")
      then throw_call last_stmt tool_map
      else do
        calls ← is_call last_stmt
        if calls
            then function_call last_stmt tool_map
            else err (plain value_error (text "Received unhandled statement type"))

  abbrev pub with_thought : Option (Call (Value F)) → Call (Value F) → List (Call (Value F))
  with_thought none call = call ∷ []
  with_thought (some think) call = think ∷ call ∷ []

  unfoldable pub interpret_ast : List (Value F) → Dict Tool → Result (List (Call (Value F)))
  unfolding process_think_statements last_call item truthy
  interpret_ast statements tool_map = elim (last? statements) [
    | none ↦ err (plain value_error (text "No action found in the program"))
    | some last_stmt ↦
        if truthy numbers last_stmt
        then (do
          stmt_kind ← item last_stmt (text "kind")
          think ← process_think_statements statements
          call ← last_call stmt_kind last_stmt tool_map
          ok (with_thought think call))
        else err (plain value_error (text "Empty statement found"))
  ]
