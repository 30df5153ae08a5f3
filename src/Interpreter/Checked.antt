-- ===== src/Interpreter/Checked.antt =====
-- Which calls an interpreted program can hold.
use nova_act.Prelude.{
  ◌≡◌, refl, true, Option, none, some, List, [], ◌∷◌, ◌⊎◌, inl, inr, arith, Bool-cases,
  Option-cases, if◌then◌else◌, last?,
}
use nova_act.Prelude.Text.{Text, text, Dict, lookup, one_of}
use nova_act.Errors.{Result, ok, plain}
use nova_act.Errors.Classes.{value_error, interpreter_error}
use nova_act.Fallible.{◌>>=◌, first_returned, except_as-eq-ok, map_results}
use nova_act.Json.{Value, null, str, Numbers, get, iterate, item, first_item, is_text, truthy}
use nova_act.Program.{Call}
use nova_act.Arguments.{prepare_kwargs_for_actuation_calls}
use nova_act.Ast.{is_call, is_think, extract_arg_value, safe_text}
use nova_act.Interpreter.{
  Schemas, valid, actuations, find_tool, validated_call, think_call, think_of,
  process_think_statements, return_call, throw_call, actuation_call, function_call, last_call,
  interpret_ast, previous?, with_thought, function_name, return_text, has_expr,
  new_expression_message,
}

module _ {F Tool : Type 0} (schemas : Schemas F Tool) where
  -- A call of the tool that is listed under `key`, with arguments that fit the tool's schema.
  abbrev pub IsValidated : Dict Tool → Text → Call (Value F) → Type 0
  IsValidated tool_map key call =
      (tool : Tool) × (lookup key tool_map ≡ some tool)
      × (call.name ≡ schemas.tool_name tool)
      × (call.id ≡ key)
      × (schemas.validate call.kwargs (schemas.input_schema tool) ≡ valid)

  abbrev pub IsReturn : Call (Value F) → Type 0
  IsReturn call = (call.name ≡ text "return") × (call.id ≡ text "return")

  -- A call that may end a program.
  abbrev pub IsFinal : Dict Tool → Call (Value F) → Type 0
  IsFinal tool_map call =
      IsReturn call
      ⊎ IsValidated tool_map (text "throw") call
      ⊎ ((key : Text) × (one_of key actuations ≡ true) × IsValidated tool_map key call)

  abbrev pub IsThought : Call (Value F) → Type 0
  IsThought call = (call.name ≡ text "think") × (call.id ≡ text "think")

  abbrev pub IsProgram : Dict Tool → List (Call (Value F)) → Type 0
  IsProgram tool_map calls =
      (final : Call (Value F)) × IsFinal tool_map final
      × ((calls ≡ final ∷ [])
          ⊎ ((thought : Call (Value F)) × IsThought thought × (calls ≡ thought ∷ final ∷ [])))

module _ {F Tool : Type 0} (numbers : Numbers F) (schemas : Schemas F Tool)
    (tool_map : Dict Tool) where
  find_tool-lookup :
      (key : Text) (tool : Tool)
      → find_tool numbers schemas key tool_map ≡ ok tool
      → lookup key tool_map ≡ some tool
  unfolding find_tool
  find_tool-lookup key tool h = ground arith

  validated :
      (tool : Tool) (key : Text) (kwargs : Dict (Value F)) (call : Call (Value F))
      → lookup key tool_map ≡ some tool
      → validated_call numbers schemas tool key kwargs ≡ ok call
      → IsValidated schemas tool_map key call
  unfolding validated_call
  validated tool key kwargs call found h = (tool, found, ground arith, ground arith, ground arith)

  find_tool_checked :
      (key : Text) (kwargs : Dict (Value F)) (call : Call (Value F))
      → (find_tool numbers schemas key tool_map >>= λ tool.
          validated_call numbers schemas tool key kwargs)
        ≡ ok call
      → IsValidated schemas tool_map key call
  find_tool_checked key kwargs call h =
      let (tool, f, v) =
        first_returned (find_tool numbers schemas key tool_map)
          (λ tool. validated_call numbers schemas tool key kwargs) h in
      validated tool key kwargs call (find_tool-lookup key tool f) v

  actuation-IsFinal :
      (name : Option Text) (args : List (Value F)) (call : Call (Value F))
      → actuation_call numbers schemas name args tool_map ≡ ok call
      → IsFinal schemas tool_map call
  unfolding actuation_call
  actuation-IsFinal none args call h = cc
  actuation-IsFinal (some key) args call h = elim (Bool-cases (one_of key actuations)) [
    | inl known ↦ inr (
        inr (
          key,
          known,
          (let chain = λ (kwargs : Dict (Value F)).
                find_tool numbers schemas key tool_map >>= λ tool.
                validated_call numbers schemas tool key kwargs in
              let (kwargs, p, v) =
                first_returned (prepare_kwargs_for_actuation_calls numbers key args) chain (
                  except_as-eq-ok value_error (λ e. plain interpreter_error e.message)
                    (prepare_kwargs_for_actuation_calls numbers key args >>= chain)
                    (rw known at h)) in
              find_tool_checked key kwargs call v),
        ))
    | inr unknown ↦ absurd (ground arith)
  ]

  function-IsFinal :
      (last : Value F) (call : Call (Value F))
      → function_call numbers schemas last tool_map ≡ ok call
      → IsFinal schemas tool_map call
  unfolding function_call
  function-IsFinal last call h =
      let (expr, _, h1) = first_returned (item last (text "expr")) _ h in
      let (func, _, h2) = first_returned (item expr (text "func")) _ h1 in
      let (name, _, h3) = first_returned (item func (text "var")) _ h2 in
      let (call_args, _, h4) = first_returned (item expr (text "args")) _ h3 in
      let (nodes, _, h5) = first_returned (iterate call_args) _ h4 in
      let (args, _, h6) = first_returned (map_results (extract_arg_value numbers) nodes) _ h5 in
      actuation-IsFinal (function_name numbers schemas name) args call h6

  return_call-IsReturn :
      (last : Value F) (call : Call (Value F))
      → return_call numbers schemas last ≡ ok call
      → IsReturn schemas call
  unfolding return_call
  return_call-IsReturn last call h =
      let (expr, _, h1) = first_returned (get last (text "expr") null) _ h in
      let (value, _, h2) =
        first_returned
          (if truthy numbers expr
            then item expr (text "value") >>= return_text numbers schemas
            else ok null)
          _ h1 in
      (ground arith, ground arith)

  throw-IsFinal :
      (last : Value F) (call : Call (Value F))
      → throw_call numbers schemas last tool_map ≡ ok call
      → IsFinal schemas tool_map call
  unfolding throw_call
  throw-IsFinal last call h =
      let message : Result (Value F) =
        if has_expr numbers schemas last
        then item last (text "expr") >>= new_expression_message numbers schemas
        else ok (str []) in
      let (error_msg, _, h1) = first_returned message _ h in
      inr (inl (find_tool_checked (text "throw") ((text "value", error_msg) ∷ []) call h1))

  last_call-IsFinal :
      (kind last : Value F) (call : Call (Value F))
      → last_call numbers schemas kind last tool_map ≡ ok call
      → IsFinal schemas tool_map call
  unfolding last_call
  last_call-IsFinal kind last call h = elim (Bool-cases (is_text kind (text "Return"))) [
    | inl returns ↦ inl (return_call-IsReturn last call (rw returns at h))
    | inr goes_on ↦ elim (Bool-cases (is_text kind (text "ThrowStatement"))) [
      | inl throws ↦ throw-IsFinal last call (rw (goes_on, throws) at h)
      | inr acts ↦
          let (calls, _, h1) = first_returned (is_call last) _ (rw (goes_on, acts) at h) in
          elim (Bool-cases calls) [
            | inl is ↦ function-IsFinal last call (rw is at h1)
            | inr not ↦ absurd (ground arith)
          ]
    ]
  ]

  think_call-IsThought :
      (expr : Value F) (thought : Call (Value F))
      → think_call numbers schemas expr ≡ ok (some thought)
      → IsThought schemas thought
  unfolding think_call
  think_call-IsThought expr thought h =
      let (args, _, h1) = first_returned (item expr (text "args")) _ h in
      let (arg, _, h2) = first_returned (first_item args) _ h1 in
      let (value, _, h3) = first_returned (item arg (text "value")) _ h2 in
      let (think_value, _, h4) = first_returned (safe_text value) _ h3 in
      (ground arith, ground arith)

  think_of-IsThought :
      (previous : Value F) (thought : Call (Value F))
      → think_of numbers schemas previous ≡ ok (some thought)
      → IsThought schemas thought
  unfolding think_of
  think_of-IsThought previous thought h =
      let (calls, _, h1) = first_returned (is_call previous) _ h in
      elim (Bool-cases calls) [
        | inl is ↦
            let (expr, _, h2) = first_returned (item previous (text "expr")) _ (rw is at h1) in
            let (thinks, _, h3) = first_returned (is_think expr) _ h2 in
            elim (Bool-cases thinks) [
              | inl does ↦ think_call-IsThought expr thought (rw does at h3)
              | inr not ↦ absurd (ground arith)
            ]
        | inr not ↦ absurd (ground arith)
      ]

  process-IsThought :
      (statements : List (Value F)) (thought : Call (Value F))
      → process_think_statements numbers schemas statements ≡ ok (some thought)
      → IsThought schemas thought
  unfolding process_think_statements
  process-IsThought statements thought h = elim (Option-cases (previous? statements)) [
    | inl absent ↦ absurd (ground arith)
    | inr (previous, e) ↦ think_of-IsThought previous thought (ground arith)
  ]

  with_thought-IsProgram :
      (statements : List (Value F)) (think : Option (Call (Value F))) (final : Call (Value F))
      → process_think_statements numbers schemas statements ≡ ok think
      → IsFinal schemas tool_map final
      → IsProgram schemas tool_map (with_thought numbers schemas think final)
  with_thought-IsProgram statements none final h f = (final, f, inl refl)
  with_thought-IsProgram statements (some thought) final h f =
      (final, f, inr (thought, process-IsThought statements thought h, refl))

  -- Whatever the model writes, a program that is interpreted is one call, with at most one thought
  -- before it. The call is a `return`, or it calls the tool that is listed for `throw` or for one of
  -- the six actuations, under that name as its id, and its arguments passed the tool's schema.
  pub interpret_ast-IsProgram :
      (statements : List (Value F)) (calls : List (Call (Value F)))
      → interpret_ast numbers schemas statements tool_map ≡ ok calls
      → IsProgram schemas tool_map calls
  unfolding interpret_ast
  interpret_ast-IsProgram statements calls h = elim (Option-cases (last? statements)) [
    | inl absent ↦ absurd (ground arith)
    | inr (last, e) ↦ elim (Bool-cases (truthy numbers last)) [
      | inr empty ↦ absurd (ground arith)
      | inl full ↦
          let h1 = rw (interpret_ast, e, full) at h in
          let (kind, _, h2) = first_returned (item last (text "kind")) _ h1 in
          let (think, t, h3) =
            first_returned (process_think_statements numbers schemas statements) _ h2 in
          let (call, c, h4) = first_returned (last_call numbers schemas kind last tool_map) _ h3 in
          let same : with_thought numbers schemas think call ≡ calls = ground arith in
          rw same at
            (with_thought-IsProgram statements think call t (last_call-IsFinal kind last call c))
    ]
  ]
