-- ===== src/Compatibility.antt =====
-- src/nova_act/tools/compatibility.py: tools that the runner can call, MCP tools among them.
use nova_act.Prelude.{Bool, false, Option, none, some, List, [], ◌∷◌, if◌then◌else◌}
use nova_act.Prelude.Text.{Text, text, Dict}
use nova_act.Errors.{Exn, Result, ok, err, act_exn}
use nova_act.Errors.Classes.{act_mcp_error}
use nova_act.Effect.{M, ◌>>=◌, lift}

-- What the runner calls: `tool(**kwargs)`, and the attribute `requires_unlocked_actuator_context`.
pub record Callable (S V : Type 0) : Type 0 where
  pub requires_unlocked : Bool
  pub invoke : Dict V → M S V

-- The parts of a `MCPToolResult` that are read. A key that is missing is `none`; a content block
-- is the text that it has, if any; `structured` is `structuredContent["result"]`.
pub record McpToolResult (V : Type 0) : Type 0 where
  pub is_error : Bool
  pub content : Option (List (Option Text))
  pub structured : Option V

pub data Tool (S V : Type 0) : Type 0 where
  decorated : Callable S V → Tool S V
  mcp : (Dict V → M S (McpToolResult V)) → Tool S V

-- The message goes on with the whole result, which is not read.
abbrev malformed : Exn
malformed =
    act_exn act_mcp_error
      (some (text "Tool result does not conform to strands.types.tools.ToolResult contract"))

first_text : List (Option Text) → Result (Option Text)
first_text [] = ok none
first_text (none ∷ bs) = err malformed
first_text (some t ∷ bs) = ok (some t)

module _ {V : Type 0} where
  -- The text of the first content block; `none` where the content is empty.
  unfoldable pub safe_mcp_tool_result_text : McpToolResult V → Result (Option Text)
  unfolding first_text
  safe_mcp_tool_result_text r = elim r.content [ none ↦ err malformed | some bs ↦ first_text bs ]

  failure : Result (Option Text) → Result V
  failure (ok message) = err (act_exn act_mcp_error message)
  failure (err e) = err e

  as_value : V → (Text → V) → Result (Option Text) → Result V
  as_value null str (ok none) = ok null
  as_value null str (ok (some t)) = ok (str t)
  as_value null str (err e) = err e

  -- What `mcp_tool` makes of the result: an error raises, a structured result is returned, and
  -- any other falls back to its text. `null` and `str` build the JSON values `None` and a string.
  unfoldable pub mcp_outcome : V → (Text → V) → McpToolResult V → Result V
  unfolding safe_mcp_tool_result_text failure as_value
  mcp_outcome null str r =
      if r.is_error then failure (safe_mcp_tool_result_text r) else elim r.structured [
        | some v ↦ ok v
        | none ↦ as_value null str (safe_mcp_tool_result_text r)
      ]

module _ {S V : Type 0} (null : V) (str : Text → V) where
  -- An MCP tool's wrapper is a fresh function, so it never has the attribute.
  unfoldable pub callable_tool : Tool S V → Callable S V
  unfolding mcp_outcome
  callable_tool (decorated c) = c
  callable_tool (mcp call) = record {
    requires_unlocked = false;
    invoke = λ kwargs. call kwargs >>= λ r. lift (mcp_outcome null str r);
  }
