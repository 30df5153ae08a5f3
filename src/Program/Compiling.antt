-- ===== src/Program/Compiling.antt =====
-- What `compile` answers for a list of calls.
use nova_act.Prelude.{◌≡◌, refl, ap, none, some, List, [], ◌∷◌, ◌++◌, Option-cases, inl, inr}
use nova_act.Prelude.Text.{text, Dict, lookup}
use nova_act.Errors.{Exn, Result, ok, err, act_exn}
use nova_act.Errors.Classes.{act_tool_error}
use nova_act.Program.{Call, CompiledCall, compile}

module _ {V Tool Target : Type 0} (callable_tool : Tool → Target) (tool_map : Dict Tool) where
  -- The calls before a call whose tool is missing have their tools.
  abbrev pub HasTools : List (Call V) → Type 0
  HasTools [] = Unit
  HasTools (call ∷ calls) =
      ((tool : Tool) × (lookup call.name tool_map ≡ some tool)) × HasTools calls

  -- The compiled calls are the calls in order, each with the tool that its name has in the map.
  abbrev pub Matches : List (Call V) → List (CompiledCall V Target) → Type 0
  Matches [] [] = Unit
  Matches (call ∷ calls) (c ∷ cs) =
      (c.source ≡ call)
      × ((tool : Tool) × (lookup call.name tool_map ≡ some tool) × (c.target ≡ callable_tool tool))
      × Matches calls cs
  Matches _ _ = ⊥

  -- The error that a missing tool raises.
  abbrev pub missing : Call V → Exn
  missing call =
      act_exn act_tool_error (some (text "Tool '" ++ call.name ++ text "' was not found."))

  -- A success has every call in order with its tool; an error names the first call without a
  -- tool, and every call before it has one.
  abbrev pub IsCompiled : List (Call V) → Result (List (CompiledCall V Target)) → Type 0
  IsCompiled calls (ok cs) = Matches calls cs
  IsCompiled calls (err e) =
      (before : List (Call V)) × (call : Call V) × (after : List (Call V)) × (calls
        ≡ before ++ call ∷ after)
      × HasTools before
      × (lookup call.name tool_map ≡ none)
      × (e ≡ missing call)

  add-IsCompiled :
      (call : Call V) (calls : List (Call V)) (r : Result (List (CompiledCall V Target)))
      (tool : Tool)
      → lookup call.name tool_map ≡ some tool
      → compile callable_tool tool_map calls ≡ r
      → IsCompiled calls r
      → IsCompiled (call ∷ calls) (compile callable_tool tool_map (call ∷ calls))
  unfolding compile
  add-IsCompiled call calls (ok cs) tool found e h =
      rw (compile, found, e) (refl, (tool, found, refl), h)
  add-IsCompiled call calls (err x) tool found e (before, c, after, split, has, none_found, is) =
      rw (compile, found, e)
        (
          call ∷ before,
          c,
          after,
          ap (λ (l : List (Call V)). call ∷ l) split,
          ((tool, found), has),
          none_found,
          is,
        )

  -- Compiling either gives every call its tool, in order, or raises the error of the first call
  -- that has none; nothing is compiled in part.
  pub compile-IsCompiled :
      (calls : List (Call V)) → IsCompiled calls (compile callable_tool tool_map calls)
  compile-IsCompiled [] = unfold compile in tt
  compile-IsCompiled (call ∷ calls) = elim (Option-cases (lookup call.name tool_map)) [
    | inl absent ↦ unfold compile in rw (compile, absent) ([], call, calls, refl, tt, absent, refl)
    | inr (tool, found) ↦
        add-IsCompiled call calls (compile callable_tool tool_map calls) tool found refl
          (compile-IsCompiled calls)
  ]
