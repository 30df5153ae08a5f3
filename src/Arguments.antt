-- ===== src/Arguments.antt =====
-- src/nova_act/util/argument_preparation.py: positional arguments of the model's program, made the
-- keyword arguments of a tool.
pub mod Shape
use nova_act.Prelude.{
  ℕ, zero, suc, ltb, ◌==◌, not, ◌||◌, Bool, true, false, Option, none, some, List, [], ◌∷◌, length,
  ◌++◌, if◌then◌else◌, map,
}
use nova_act.Prelude.Text.{Text, text, text_eq, Dict, insert}
use nova_act.Errors.{Exn, Result, ok, err, plain}
use nova_act.Errors.Classes.{value_error}
use nova_act.Fallible.{◌>>=◌}
use nova_act.DecodeString.{safe_string}
use nova_act.Json.{
  Value, Items, Fields, null, bool, int, float, str, arr, obj, nil, cons, end, field, get, Numbers,
  truthy, to_float, is_dict,
}

-- The message goes on with the count that was given.
abbrev pub invalid_number : Text → Exn
invalid_number tool_name = plain value_error (text "Invalid number of arguments for " ++ tool_name)

module _ {F : Type 0} where
  -- Texts are made safe at any depth; the keys of a dictionary stay.
  unfoldable mutual
    pub apply_safe_string : Value F → Value F
    apply_safe_string (obj fs) = obj (safe_fields fs)
    apply_safe_string (arr vs) = arr (safe_items vs)
    apply_safe_string (str s) = str (safe_string s)
    apply_safe_string null = null
    apply_safe_string (bool b) = bool b
    apply_safe_string (int n) = int n
    apply_safe_string (float x) = float x

    pub safe_items : Items F → Items F
    safe_items nil = nil
    safe_items (cons v vs) = cons (apply_safe_string v) (safe_items vs)

    pub safe_fields : Fields F → Fields F
    safe_fields end = end
    safe_fields (field k v fs) = field k (apply_safe_string v) (safe_fields fs)

  press_enter : Value F → Result (Value F)
  press_enter option =
      if is_dict option then get option (text "pressEnter") (bool false) else ok option

  type_kwargs : Value F → Value F → Value F → Dict (Value F)
  type_kwargs value box enter =
      (text "value", value) ∷ (text "box", box) ∷ (text "pressEnter", enter) ∷ []

module _ {F : Type 0} (numbers : Numbers F) where
  -- An argument that may be an object of options: then its entry `clickType` counts, if it is not
  -- empty.
  click_kwargs : Value F → Value F → Result (Dict (Value F))
  unfolding insert
  click_kwargs box option =
      if is_dict option
      then (do
        click_type ← get option (text "clickType") null
        ok (
            if truthy numbers click_type
            then insert (text "click_type") click_type ((text "box", box) ∷ [])
            else (text "box", box) ∷ []))
      else ok (insert (text "click_type") option ((text "box", box) ∷ []))

-- The cases of `match tool_name`.
pub data Action : Type 0 where
  click hover scroll type_text go_to_url return take_observation think throw : Action
  wait wait_for_page_to_settle unknown : Action

unfoldable pub action_of : Text → Action
unfolding text_eq
action_of name =
    if text_eq name (text "agentClick")
    then click
    else if text_eq name (text "agentHover")
    then hover
    else if text_eq name (text "agentScroll")
    then scroll
    else if text_eq name (text "agentType")
    then type_text
    else if text_eq name (text "goToUrl")
    then go_to_url
    else if text_eq name (text "return")
    then return
    else if text_eq name (text "takeObservation")
    then take_observation
    else if text_eq name (text "think")
    then think
    else if text_eq name (text "throwAgentError") || text_eq name (text "throw")
    then throw
    else if text_eq name (text "wait")
    then wait
    else if text_eq name (text "waitForPageToSettle")
    then wait_for_page_to_settle
    else unknown

module _ {F : Type 0} (numbers : Numbers F) where
  wait_kwargs : Result F → Result (Dict (Value F))
  wait_kwargs (ok seconds) = ok ((text "seconds", float seconds) ∷ [])
  wait_kwargs (err e) = err e

  abbrev pub invalid_type : Exn
  invalid_type = plain value_error (text "Invalid type for 'wait'.")

  wait_for : Value F → Result (Dict (Value F))
  unfolding wait_kwargs
  wait_for (int n) = wait_kwargs (to_float numbers (int n))
  wait_for (bool b) = wait_kwargs (to_float numbers (bool b))
  wait_for (float x) = wait_kwargs (to_float numbers (float x))
  wait_for (str s) = wait_kwargs (to_float numbers (str s))
  wait_for _ = err invalid_type

  -- What the cases make of the arguments.
  unfoldable pub kwargs_of : Action → Text → List (Value F) → Result (Dict (Value F))
  unfolding click_kwargs press_enter type_kwargs wait_for
  kwargs_of click name [] = err (invalid_number name)
  kwargs_of click name (box ∷ []) = ok ((text "box", box) ∷ [])
  kwargs_of click name (box ∷ (option ∷ args)) = click_kwargs numbers box option
  kwargs_of hover name (box ∷ []) = ok ((text "box", box) ∷ [])
  kwargs_of hover name _ = err (invalid_number name)
  kwargs_of scroll name (direction ∷ (box ∷ [])) =
      ok ((text "direction", direction) ∷ (text "box", box) ∷ [])
  kwargs_of scroll name _ = err (invalid_number name)
  kwargs_of type_text name [] = err (invalid_number name)
  kwargs_of type_text name (value ∷ []) = err (invalid_number name)
  kwargs_of type_text name (value ∷ (box ∷ [])) = ok (type_kwargs value box (bool false))
  kwargs_of type_text name (value ∷ (box ∷ (option ∷ args))) = do
    enter ← press_enter option
    ok (type_kwargs value box enter)
  kwargs_of go_to_url name [] = err (invalid_number name)
  kwargs_of go_to_url name (url ∷ args) = ok ((text "url", url) ∷ [])
  kwargs_of return name (value ∷ []) = ok ((text "value", value) ∷ [])
  kwargs_of return name _ = ok ((text "value", str []) ∷ [])
  kwargs_of take_observation name args = ok []
  kwargs_of think name [] = err (invalid_number name)
  kwargs_of think name (value ∷ args) = ok ((text "value", value) ∷ [])
  kwargs_of throw name [] = err (invalid_number name)
  kwargs_of throw name (value ∷ args) = ok ((text "value", value) ∷ [])
  kwargs_of wait name [] = err (invalid_number name)
  kwargs_of wait name (value ∷ args) = wait_for value
  kwargs_of wait_for_page_to_settle name args = ok []
  kwargs_of unknown name args = err (plain value_error (text "Received unexpected input args"))

  unfoldable pub prepare_kwargs_for_actuation_calls :
      Text → List (Value F) → Result (Dict (Value F))
  unfolding kwargs_of action_of
  prepare_kwargs_for_actuation_calls tool_name args =
      kwargs_of (action_of tool_name) tool_name (map apply_safe_string args)
