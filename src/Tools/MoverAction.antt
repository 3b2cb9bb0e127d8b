-- ===== src/Tools/MoverAction.antt =====
-- tools/mover/mover-action.ts: the handler of the tool `mover_action`.
pub mod Laws
use better_unraid_mcp.Base.{ℕ, Bool, Text, u, ◌++◌, Option, none, some, trim}
use better_unraid_mcp.Effects.{Action, pure, ◌>>=◌, execute, try_catch, guarded}
use better_unraid_mcp.Json.{str, obj, end, field, num, null}
use better_unraid_mcp.Respond.{ToolResult, tool_error, ResponseFormat, format_response}
use better_unraid_mcp.Gate.{ElicitationChannel, require_confirmation_interactive}
use better_unraid_mcp.Tools.Ssh.{
  ShellCommand, ShellResult, ShellExecutor, succeeded, exit_text, or_text, with_shell,
  refuse_unless,
}

pub data MoverVerb : Type 0 where
  start stop : MoverVerb

pub record MoverActionArgs : Type 0 where
  pub response_format : ResponseFormat
  pub action : MoverVerb
  pub confirm : Option Bool

pub action_text : MoverVerb → Text
action_text start = u "start"
action_text stop = u "stop"

success_summary : MoverVerb → Text
success_summary start =
    u
      "Mover start requested. Progress appears in the syslog (log_read) and mover_status reports whether it is still running."
success_summary stop =
    u
      "Mover stop requested. Note: interrupting the mover can leave partial files on the destination; check the syslog for what was in flight."

pub mover_command : MoverVerb → ShellCommand
mover_command action = record {
  command = u "/usr/local/sbin/mover" ++ (u " " ++ action_text action);
  timeout_ms = 30000;
}

failed_error : MoverVerb → ShellResult → ToolResult
failed_error action result = tool_error (
    u "mover "
    ++ (action_text action
        ++ (u " failed (exit "
            ++ (exit_text result
                ++ (u "): "
                    ++ or_text (trim result.stderr)
                        (or_text (trim result.stdout) (u "(no output)")))))))

-- After a success, the exit code is 0.
run_mover : ShellExecutor → MoverActionArgs → Action ShellCommand ToolResult
unfolding success_summary failed_error
run_mover shell args = do
  result ← execute shell (mover_command args.action)
  guarded (refuse_unless (succeeded result) (failed_error args.action result)) (
      pure (
        format_response args.response_format (success_summary args.action) (
          obj (
            field (u "action") (str (action_text args.action))
              (field (u "exitCode") (num 0) (field (u "stdout") (str result.stdout) end))))))

pub describe : MoverVerb → Text
describe action = action_text action ++ u " the mover"

pub mover_action :
    Option ShellExecutor
    → Option ElicitationChannel
    → MoverActionArgs
    → Action ShellCommand ToolResult
unfolding run_mover
mover_action shell channel args = with_shell shell (λ host.
    guarded (require_confirmation_interactive args.confirm (describe args.action) channel) (
      try_catch (run_mover host args) (λ message.
        tool_error
          (u "Failed to " ++ (action_text args.action ++ (u " the mover over SSH: " ++ message))))))
