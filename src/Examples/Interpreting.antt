-- ===== src/Examples/Interpreting.antt =====
-- A small program of the model, its texts and its calls.
use nova_act.Prelude.{ℕ, ◌≡◌, refl, true, false, some, [], ◌∷◌, List}
use nova_act.Prelude.Int.{pos, pos_part}
use nova_act.Prelude.Text.{Text, text, Dict, lookup}
use nova_act.Errors.{ok, err, plain}
use nova_act.Errors.Classes.{value_error}
use nova_act.DecodeString.{safe_string}
use nova_act.DecodeString.Clean.{safe_string-IsClean, IsHarmless}
use nova_act.Json.{Value, Numbers, str, obj, arr, int, items_of, fields_of}
use nova_act.Json.Depth.{depth}
use nova_act.Arguments.{action_of, apply_safe_string}
use nova_act.Ast.{new_call}
use nova_act.Program.{Call}
use nova_act.Interpreter.{Schemas, valid, interpret_ast}
use nova_act.Interpreter.Checked.{IsProgram, interpret_ast-IsProgram}
use nova_act.Prelude.{get_elem?}

-- An escape sequence, a BEL and an escaped code point.
abbrev wild : Text
wild = 27 ∷ b'[' ∷ b'2' ∷ b'J' ∷ b'a' ∷ 7 ∷ 27 ∷ 10 ∷ text "\\u0041"

decoded_wild : safe_string wild ≡ b'a' ∷ 27 ∷ 10 ∷ b'A' ∷ []
unfolding safe_string
decoded_wild = refl

second_is_escape : get_elem? (safe_string wild) 1 ≡ some 27
unfolding safe_string
second_is_escape = refl

safe_string-IsClean_example : IsHarmless 27 (get_elem? (safe_string wild) 2)
safe_string-IsClean_example = safe_string-IsClean wild 1 27 second_is_escape

-- Floating-point numbers are taken to be natural ones here.
abbrev pub numbers : Numbers ℕ
numbers = record {
  of_int = λ n. ok (pos_part n);
  of_text = λ s. err (plain value_error (text "could not convert string to float"));
  is_zero = λ n. false;
  print = λ v. text "...";
}

abbrev typed_args : List (Value ℕ)
typed_args = str (text "hi") ∷ str (text "1") ∷ []

abbrev typed_kwargs : Dict (Value ℕ)
typed_kwargs =
    (text "value", str (text "hi"))
    ∷ (text "box", str (text "1"))
    ∷ (text "pressEnter", Value.bool false)
    ∷ []

abbrev node : Dict (Value ℕ) → Value ℕ
node d = obj (fields_of d)

abbrev press_enter : Value ℕ
press_enter = node (
    (text "kind", str (text "ObjectExpression"))
    ∷ (
      text "props",
      arr (
          items_of (
            node (
              (text "kind", str (text "PropertyAssignment"))
              ∷ (text "prop", str (text "pressEnter"))
              ∷ (
                text "value",
                node ((text "kind", str (text "Bool")) ∷ (text "value", Value.bool true) ∷ []),
              )
              ∷ [])
            ∷ [])),
    )
    ∷ [])

shallow : depth press_enter ≡ 4
unfolding depth items_of fields_of
shallow = refl

-- Tools are numbered; each takes any arguments.
abbrev pub schemas : Schemas ℕ ℕ
schemas = record {
  tool_name = λ tool. text "goToUrl";
  input_schema = λ tool. int (pos tool);
  validate = λ kwargs schema. valid;
}

abbrev pub tool_map : Dict ℕ
tool_map = (text "goToUrl", 7) ∷ []

abbrev call_of : Text → Text → Value ℕ
call_of name value = node (
    (text "kind", str (text "Call"))
    ∷ (text "func", node ((text "var", str name) ∷ []))
    ∷ (
      text "args",
      arr (items_of (node ((text "kind", str (text "Str")) ∷ (text "value", str value) ∷ []) ∷ [])),
    )
    ∷ [])

abbrev statement : Value ℕ → Value ℕ
statement expr = node ((text "kind", str (text "ExprStmt")) ∷ (text "expr", expr) ∷ [])

-- `think("look"); goToUrl("a");`
abbrev pub statements : List (Value ℕ)
statements =
    statement (call_of (text "think") (text "look"))
    ∷ statement (call_of (text "goToUrl") (text "a"))
    ∷ []

abbrev pub calls : List (Call (Value ℕ))
calls =
    new_call (text "think") ((text "value", str (text "look")) ∷ [])
    ∷ new_call (text "goToUrl") ((text "url", str (text "a")) ∷ [])
    ∷ []

pub interpreted : interpret_ast numbers schemas statements tool_map ≡ ok calls
unfolding interpret_ast items_of fields_of lookup apply_safe_string safe_string depth action_of
interpreted = refl

interpret_ast-IsProgram_example : IsProgram schemas tool_map calls
interpret_ast-IsProgram_example =
    interpret_ast-IsProgram numbers schemas tool_map statements calls interpreted
