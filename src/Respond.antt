-- ===== src/Respond.antt =====
-- tools/_shared/respond.ts: what a tool handler answers with.
pub mod Truncate
use better_unraid_mcp.Base.{Text, Bool, true, false}
use better_unraid_mcp.Json.{Json, stringify}
use Truncate.{truncate_json_payload}

-- `toolText(text)` and `toolError(message)`, by the text that they are given. Redaction of that
-- text comes after, and is not modelled here.
pub data ToolResult : Type 0 where
  tool_text : Text → ToolResult
  tool_error : Text → ToolResult

pub data ResponseFormat : Type 0 where
  concise detailed : ResponseFormat

unfoldable pub format_response : ResponseFormat → Text → Json → ToolResult
format_response concise summary payload = tool_text summary
format_response detailed summary payload = tool_text (truncate_json_payload (stringify payload))

-- The result's `isError`.
abbrev pub is_error : ToolResult → Bool
is_error (tool_text text) = false
is_error (tool_error message) = true
