-- ===== src/Ast.antt =====
-- The nodes of the model's program, as src/nova_act/impl/interpreter.py reads them.
-- A node is a JSON value, as the response of the service may hold anything; names of an object's
-- properties are texts.
pub mod Objects
use nova_act.Prelude.{
  ℕ, zero, suc, ◌+◌, not, ◌&&◌, ◌||◌, Bool, true, false, Option, none, some, List, [], ◌∷◌, ◌++◌,
  last?, map, if◌then◌else◌,
}
use nova_act.Prelude.Text.{Text, text, text_eq, one_of, Dict, insert, lookup}
use nova_act.Errors.{Exn, Result, ok, err, plain}
use nova_act.Errors.Classes.{
  value_error, key_error, attribute_error, runtime_error, type_error, interpreter_error,
}
use nova_act.Fallible.{◌>>=◌, map_results, except_as}
use nova_act.DecodeString.{safe_string}
use nova_act.Json.{
  Value, Items, Fields, null, bool, int, float, str, arr, obj, field?, item, first_item, get,
  iterate, is_text, is_null, fields_of, Numbers, truthy, to_text,
}
use nova_act.Arguments.{prepare_kwargs_for_actuation_calls}
use nova_act.Program.{Call}
use nova_act.Json.Depth.{depth}

module _ {F : Type 0} where
  -- `safe_string(v)`, which calls a method of texts.
  unfoldable pub safe_text : Value F → Result (Value F)
  unfolding safe_string
  safe_text (str s) = ok (str (safe_string s))
  safe_text _ = err (plain attribute_error (text "object has no attribute 'replace'"))

  abbrev pub new_call : Text → Dict (Value F) → Call (Value F)
  new_call name kwargs = record {
    name = name;
    kwargs = kwargs;
    id = name;
    is_tool = false;
    is_return = false;
  }

  unfoldable pub set_property :
      Value F → Dict (Value F) → Result (Value F) → Result (Dict (Value F))
  set_property (str key) result (ok v) = ok (insert key v result)
  set_property _ result (ok v) = err (plain type_error (text "the name of a property is no text"))
  set_property key result (err e) = err e

  abbrev object_as_value : Result (Dict (Value F)) → Result (Value F)
  object_as_value (ok d) = ok (obj (fields_of d))
  object_as_value (err e) = err e

  -- The assignment of one property, by the kind of its value.
  unfoldable pub assign :
      (Value F → Result (Dict (Value F)))
      → Dict (Value F)
      → Value F
      → Value F
      → Value F
      → Result (Dict (Value F))
  unfolding safe_text set_property item
  assign parse result key value_node kind =
      if is_text kind (text "Bool") || is_text kind (text "Number")
      then set_property key result (item value_node (text "value"))
      else if is_text kind (text "Str")
      then set_property key result (item value_node (text "value") >>= safe_text)
      else if is_text kind (text "ObjectExpression")
      then set_property key result (object_as_value (parse value_node))
      else ok result

  -- One turn of the loop over `props`; `parse` is the function itself.
  unfoldable pub add_property :
      (Value F → Result (Dict (Value F))) → Dict (Value F) → Value F → Result (Dict (Value F))
  unfolding assign item
  add_property parse result prop = do
    prop_kind ← item prop (text "kind")
    if is_text prop_kind (text "PropertyAssignment")
        then (do
          key ← item prop (text "prop")
          value_node ← item prop (text "value")
          kind ← item value_node (text "kind")
          assign parse result key value_node kind)
        else ok result

  unfoldable pub add_properties :
      (Value F → Result (Dict (Value F)))
      → Dict (Value F)
      → List (Value F)
      → Result (Dict (Value F))
  unfolding add_property
  add_properties parse result [] = ok result
  add_properties parse result (prop ∷ props) =
      add_property parse result prop >>= λ longer. add_properties parse longer props

  -- The fuel bounds how deep the nesting is followed; Python's own bound raises a RecursionError.
  unfoldable pub parse_object_expression : ℕ → Value F → Result (Dict (Value F))
  unfolding item get iterate add_properties
  parse_object_expression zero obj_expr = err (plain runtime_error (text "recursion"))
  parse_object_expression (suc fuel) obj_expr = do
    kind ← item obj_expr (text "kind")
    if is_text kind (text "ObjectExpression")
        then (do
          props ← get obj_expr (text "props") (arr Items.nil)
          list ← iterate props
          add_properties (parse_object_expression fuel) [] list)
        else ok []

module _ {F : Type 0} (numbers : Numbers F) where
  plain_argument : Value F → Value F → Result (Value F)
  unfolding safe_text
  plain_argument kind (str s) = safe_text (str s)
  plain_argument kind v = if is_text kind (text "Str") then safe_text v else ok v

  -- `_extract_arg_value`.
  unfoldable pub extract_arg_value : Value F → Result (Value F)
  unfolding get plain_argument parse_object_expression to_text
  extract_arg_value (obj fs) = do
    kind ← get (obj fs) (text "kind") null
    value ← get (obj fs) (text "value") null
    if is_text kind (text "ObjectExpression")
        then object_as_value (parse_object_expression (suc (depth (obj fs))) (obj fs))
        else if is_null value
        then ok (str (to_text numbers (obj fs)))
        else plain_argument kind value
  extract_arg_value arg = ok (str (to_text numbers arg))

module _ {F : Type 0} where
  unfoldable pub is_think : Value F → Result Bool
  unfolding item
  is_think expr = do
    func ← item expr (text "func")
    var ← item func (text "var")
    ok (is_text var (text "think"))

  -- Whether a statement is an expression statement that calls a function.
  unfoldable pub is_call : Value F → Result Bool
  unfolding item
  is_call stmt = do
    kind ← item stmt (text "kind")
    if is_text kind (text "ExprStmt")
        then (do
          expr ← item stmt (text "expr")
          expr_kind ← item expr (text "kind")
          ok (is_text expr_kind (text "Call")))
        else ok false
