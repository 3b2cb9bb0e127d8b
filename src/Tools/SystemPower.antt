-- ===== src/Tools/SystemPower.antt =====
-- tools/system/system-power.ts: the handler of the tool `system_power`.
pub mod Laws
use better_unraid_mcp.Base.{Text, u, ◌++◌, Option, includes, trim, if◌then◌else◌}
use better_unraid_mcp.Effects.{Action, pure, ◌>>=◌, execute, try_catch, guarded}
use better_unraid_mcp.Respond.{ToolResult, tool_error, tool_text}
use better_unraid_mcp.Gate.{
  ElicitationChannel, RiskGateFlags, require_risk_acknowledgement_interactive,
}
use better_unraid_mcp.Tools.Ssh.{
  ShellCommand, ShellResult, ShellExecutor, succeeded, exit_text, or_text, with_shell,
  refuse_unless,
}

pub data PowerAction : Type 0 where
  reboot shutdown : PowerAction

pub power_commands : PowerAction → Text
power_commands reboot = u "/sbin/reboot"
power_commands shutdown = u "/sbin/poweroff"

pub record SystemPowerArgs : Type 0 where
  pub action : PowerAction
  pub flags : RiskGateFlags

action_text : PowerAction → Text
action_text reboot = u "reboot"
action_text shutdown = u "shutdown"

consequence : PowerAction → Text
consequence shutdown =
    u "power the server off until it is turned back on physically (or via wake-on-LAN)"
consequence reboot = u "take the server down for the duration of the reboot"

pub refusal_message : PowerAction → Text
unfolding action_text consequence
refusal_message action =
    u "Refusing to "
    ++ (action_text action
        ++ (u " the server: this will "
            ++ (consequence action
                ++ u
                    " — every share, container, and VM goes offline. Unraid performs a clean array stop on the way down. Re-call with \"confirm\": true and \"acknowledge_risk\": true to proceed. No changes were made.")))

unfoldable pub exec_phase_marker : Text
exec_phase_marker = u "run the command"

pub map_power_error : PowerAction → Text → ToolResult
map_power_error action message =
    if includes message exec_phase_marker
    then tool_text (
        u "The "
        ++ (action_text action
            ++ u
                " command was issued, then the SSH connection dropped — expected while the server goes down. Verify with connection_doctor once the server should be back."))
    else tool_error (
        u "Failed to "
        ++ (action_text action
            ++ (u ": the command was never sent — SSH failed first: " ++ message)))

initiated : PowerAction → Text
initiated reboot = u "Reboot"
initiated shutdown = u "Shutdown"

pub power_command : PowerAction → ShellCommand
power_command action = record { command = power_commands action; timeout_ms = 15000 }

failed_error : PowerAction → ShellResult → ToolResult
failed_error action result = tool_error (
    action_text action
    ++ (u " failed (exit "
        ++ (exit_text result ++ (u "): " ++ or_text (trim result.stderr) (u "(no error output)")))))

pub run_power : ShellExecutor → PowerAction → Action ShellCommand ToolResult
unfolding failed_error initiated
run_power shell action = do
  result ← execute shell (power_command action)
  guarded (refuse_unless (succeeded result) (failed_error action result)) (
      pure (
        tool_text (
          initiated action
          ++ u
              " initiated — the server is going down now and this connection will drop. Unraid stops the array cleanly on the way down.")))

pub system_power :
    Option ShellExecutor
    → Option ElicitationChannel
    → SystemPowerArgs
    → Action ShellCommand ToolResult
unfolding run_power map_power_error
system_power shell channel args = with_shell shell (λ host.
    guarded
      (require_risk_acknowledgement_interactive args.flags (refusal_message args.action) channel)
      (try_catch (run_power host args.action) (map_power_error args.action)))
