-- ===== src/Tools/Ssh.antt =====
-- What the tools that run commands on the host share: the part of shell/executor.ts that they call, and
-- tools/_shared/require-shell.ts.
pub mod Laws
use better_unraid_mcp.Base.{
  ℕ, Text, List, ◌∷◌, ◌≡◌, refl, Bool, true, false, not, Option, none, some, u, decimal, ◌==◌, [],
}
use better_unraid_mcp.Effects.{
  Attempt, returned, thrown, Action, Executor, pure, resume, ◌>>=◌, execute, guarded, try_catch,
  handled,
}
use better_unraid_mcp.Respond.{ToolResult, tool_text, tool_error, is_error}

-- The arguments of `shell.execute`.
pub record ShellCommand : Type 0 where
  pub command : Text
  pub timeout_ms : ℕ

-- `exit_code` is `none` for the -1 of a command that ended without a code.
pub record ShellResult : Type 0 where
  pub stdout : Text
  pub stderr : Text
  pub exit_code : Option ℕ

abbrev pub ShellReply : ShellCommand → Type 0
ShellReply op = ShellResult

abbrev pub ShellExecutor : Type 0
ShellExecutor = Executor ShellCommand ShellReply

-- `result.exitCode === 0`
unfoldable pub succeeded : ShellResult → Bool
succeeded result = elim result.exit_code [ none ↦ false | some code ↦ code == 0 ]

unfoldable pub exit_text : ShellResult → Text
exit_text result = elim result.exit_code [ none ↦ u "-1" | some code ↦ decimal code ]

-- `a || b` on strings.
unfoldable pub or_text : Text → Text → Text
or_text [] b = b
or_text (c ∷ s) b = c ∷ s

unfoldable pub ssh_unavailable_error : ToolResult
ssh_unavailable_error = tool_error (
    u
      "SSH is not configured, so host-level tools are unavailable. Set UNRAID_SSH_HOST plus UNRAID_SSH_PASSWORD or UNRAID_SSH_KEY_PATH (and optionally UNRAID_SSH_PORT, UNRAID_SSH_USER) in the MCP server's environment, then restart it.")

-- `if (!shell) { return sshUnavailableError(); }` before the rest of a handler.
abbrev pub with_shell :
    Option ShellExecutor
    → (ShellExecutor → Action ShellCommand ToolResult)
    → Action ShellCommand ToolResult
with_shell none rest = pure ssh_unavailable_error
with_shell (some shell) rest = rest shell

-- `if (!ok) { return refusal; }`, for `guarded`.
abbrev pub refuse_unless : Bool → ToolResult → Option ToolResult
refuse_unless true refusal = none
refuse_unless false refusal = some refusal

-- A call that ended with a result that is no error.
abbrev pub is_success : Attempt ToolResult → Bool
is_success (returned result) = not (is_error result)
is_success (thrown message) = false
