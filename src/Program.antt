-- ===== src/Program.antt =====
-- src/nova_act/impl/program/base.py: calls, compiled programs and what running them leaves.
-- `V` is the type of JSON values, `Target` that of the tools a call is compiled to.
pub mod Compiling
use nova_act.Prelude.{Bool, true, false, Option, none, some, List, [], ◌∷◌, ◌++◌, find}
use nova_act.Prelude.Text.{Text, text, text_eq, Dict, lookup}
use nova_act.Errors.{Exn, Result, ok, err, act_exn}
use nova_act.Errors.Classes.{act_tool_error}

pub record Call (V : Type 0) : Type 0 where
  pub name : Text
  pub kwargs : Dict V
  pub id : Text
  pub is_tool : Bool
  pub is_return : Bool

pub record CompiledCall (V Target : Type 0) : Type 0 where
  pub source : Call V
  pub target : Target

pub record CallResult (V : Type 0) : Type 0 where
  pub call : Call V
  pub return_value : V
  pub error : Option Exn

module _ {V : Type 0} where
  abbrev pub named : Text → CallResult V → Bool
  named n r = text_eq r.call.name n

  abbrev pub failed : CallResult V → Bool
  failed r = elim r.error [ none ↦ false | some e ↦ true ]

  unfoldable pub has_return : List (CallResult V) → Option (CallResult V)
  has_return results = find (named (text "return")) results

  unfoldable pub has_throw : List (CallResult V) → Option (CallResult V)
  has_throw results = find (named (text "throw")) results

  unfoldable pub has_exception : List (CallResult V) → Option (CallResult V)
  has_exception results = find failed results

  unfoldable pub has_observation : List (CallResult V) → Option (CallResult V)
  has_observation results = find (named (text "takeObservation")) results

  unfoldable pub is_return : List (CallResult V) → Option (CallResult V)
  is_return results = find (λ r. r.call.is_return) results

-- `Program.compile`: the first call whose tool is missing stops the compilation.
-- `callable_tool` is that of src/nova_act/tools/compatibility.py.
module _ {V Tool Target : Type 0} (callable_tool : Tool → Target) (tool_map : Dict Tool) where
  unfoldable pub compile : List (Call V) → Result (List (CompiledCall V Target))
  compile [] = ok []
  compile (call ∷ calls) =
      let rest = compile calls in
      elim (lookup call.name tool_map) [
        | none ↦
            err (
              act_exn act_tool_error (some (text "Tool '" ++ call.name ++ text "' was not found.")))
        | some target ↦ elim rest [
          | ok compiled ↦ ok (record { source = call; target = callable_tool target } ∷ compiled)
          | err e ↦ err e
        ]
      ]
