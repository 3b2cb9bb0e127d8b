-- ===== src/Tools/ServiceAction.antt =====
-- tools/service/_shared.ts and service-action.ts: the handler of the tool `service_action`. The input
-- schema admits no other service, so the refusal of an unknown one has no case here.
pub mod Laws
use better_unraid_mcp.Base.{
  Text, u, ◌++◌, ◌≡◌, Bool, true, false, not, ◌&&◌, Option, none, some, is_true, lower, includes,
  trim, text_eq, if◌then◌else◌, ℕ,
}
use better_unraid_mcp.Effects.{Action, pure, ◌>>=◌, execute, try_catch, guarded}
use better_unraid_mcp.Json.{Json, bool, str, obj, end, field}
use better_unraid_mcp.Respond.{ToolResult, tool_error, ResponseFormat, concise, format_response}
use better_unraid_mcp.Gate.{
  ElicitationChannel, RiskGateFlags, require_risk_acknowledgement_interactive,
}
use better_unraid_mcp.Tools.QuoteShell.{quote_for_shell}
use better_unraid_mcp.Tools.Ssh.{
  ShellCommand, ShellResult, ShellExecutor, succeeded, exit_text, or_text, with_shell,
  refuse_unless,
}

pub data ServiceName : Type 0 where
  samba nfs sshd docker libvirt tailscale : ServiceName

-- `SERVICES[name]`
pub services : ServiceName → Text
services samba = u "rc.samba"
services nfs = u "rc.nfsd"
services sshd = u "rc.sshd"
services docker = u "rc.docker"
services libvirt = u "rc.libvirt"
services tailscale = u "rc.tailscale"

service_text : ServiceName → Text
service_text samba = u "samba"
service_text nfs = u "nfs"
service_text sshd = u "sshd"
service_text docker = u "docker"
service_text libvirt = u "libvirt"
service_text tailscale = u "tailscale"

abbrev pub service_timeout_ms : ℕ
service_timeout_ms = 120000

abbrev pub probe_timeout_ms : ℕ
probe_timeout_ms = 10000

pub data ServiceState : Type 0 where
  running stopped not_installed unknown : ServiceState

state_text : ServiceState → Text
state_text running = u "running"
state_text stopped = u "stopped"
state_text not_installed = u "not_installed"
state_text unknown = u "unknown"

state_eq : ServiceState → ServiceState → Bool
state_eq running running = true
state_eq stopped stopped = true
state_eq not_installed not_installed = true
state_eq unknown unknown = true
state_eq _ _ = false

unfoldable pub rc_script : ServiceName → Text
unfolding services
rc_script name = u "/etc/rc.d/" ++ services name

unfoldable pub rc_command : ServiceName → Text → Text
rc_command name verb = quote_for_shell (rc_script name) ++ (u " " ++ verb)

unfoldable pub parse_status_output : Text → ServiceState
parse_status_output stdout =
    let line = trim stdout in
    if text_eq line (u "NOT_INSTALLED")
    then not_installed
    else if includes (lower line) (u "currently running")
    then running
    else if includes (lower line) (u "not running")
    then stopped
    else unknown

pub data ServiceVerb : Type 0 where
  restart start stop : ServiceVerb

verb_text : ServiceVerb → Text
verb_text restart = u "restart"
verb_text start = u "start"
verb_text stop = u "stop"

-- `NEVER_STOP.has(name)`
abbrev pub never_stop : ServiceName → Bool
never_stop docker = true
never_stop libvirt = true
never_stop _ = false

pub expected_state : ServiceVerb → ServiceState
expected_state stop = stopped
expected_state _ = running

pub record ServiceActionArgs : Type 0 where
  pub response_format : Option ResponseFormat
  pub service : ServiceName
  pub action : ServiceVerb
  pub allow_stop : Option Bool
  pub flags : RiskGateFlags

abbrev is_stop : ServiceVerb → Bool
is_stop stop = true
is_stop _ = false

pub validate : ServiceActionArgs → Option ToolResult
unfolding service_text
validate args =
    if is_stop args.action && never_stop args.service
    then some (
        tool_error (
          u "Refusing to stop "
          ++ (service_text args.service
              ++ u
                  ": that takes every container/VM offline — stop the array with array_action or use the web UI instead. No changes were made.")))
    else if is_stop args.action && not (is_true args.allow_stop)
    then some (
        tool_error (
          u "Refusing to stop "
          ++ (service_text args.service
              ++ u
                  ": stopping it cuts off every client using it (shares/SSH). Re-call with \"allow_stop\": true as well if that is intended. No changes were made.")))
    else none

pub refusal_message : ServiceActionArgs → Text
unfolding verb_text services
refusal_message args =
    u "Refusing to "
    ++ (verb_text args.action
        ++ (u " "
            ++ (service_text args.service
                ++ (u ": this interrupts the service for every client using it ("
                    ++ (services args.service
                        ++ (u " "
                            ++ (verb_text args.action
                                ++ u
                                    "). Re-call with \"confirm\": true and \"acknowledge_risk\": true to proceed. No changes were made.")))))))

pub probe_of : ServiceActionArgs → ShellCommand
probe_of args = record {
  command = u "test -x " ++ quote_for_shell (rc_script args.service);
  timeout_ms = probe_timeout_ms;
}

pub verb_of : ServiceActionArgs → ShellCommand
verb_of args = record {
  command = rc_command args.service (verb_text args.action);
  timeout_ms = service_timeout_ms;
}

pub status_of : ServiceActionArgs → ShellCommand
status_of args = record {
  command = rc_command args.service (u "status");
  timeout_ms = probe_timeout_ms;
}

format_or_concise : Option ResponseFormat → ResponseFormat
format_or_concise none = concise
format_or_concise (some format) = format

payload_of : ServiceActionArgs → ServiceState → Text → Json
unfolding state_text
payload_of args state detail = obj (
    field (u "service") (str (service_text args.service)) (
      field (u "action") (str (verb_text args.action)) (
        field (u "stateAfter") (str (state_text state)) (
          field (u "verified") (bool (state_eq state (expected_state args.action)))
            (field (u "detail") (str detail) end)))))

pub render_outcome : ServiceActionArgs → ServiceState → Text → ToolResult
unfolding state_eq payload_of format_or_concise
render_outcome args state detail =
    if not (state_eq state (expected_state args.action))
    then tool_error (
        services args.service
        ++ (u " "
            ++ (verb_text args.action
                ++ (u " ran, but the status read-back says: \""
                    ++ (detail
                        ++ (u "\" (state "
                            ++ (state_text state
                                ++ (u ", expected "
                                    ++ (state_text (expected_state args.action)
                                        ++ u "). Check the syslog with log_read.")))))))))
    else format_response (format_or_concise args.response_format)
        (service_text args.service
          ++ (u " "
              ++ (verb_text args.action
                  ++ (u " done — state now "
                      ++ (state_text state ++ (u " (verified: \"" ++ (detail ++ u "\")")))))))
        (payload_of args state detail)

not_installed_error : ServiceActionArgs → ToolResult
not_installed_error args = tool_error (
    service_text args.service
    ++ (u " is not installed on this server ("
        ++ (rc_script args.service ++ u " is missing). No changes were made.")))

failed_error : ServiceActionArgs → ShellResult → ToolResult
failed_error args result = tool_error (
    services args.service
    ++ (u " "
        ++ (verb_text args.action
            ++ (u " failed (exit "
                ++ (exit_text result
                    ++ (u "): " ++ or_text (trim result.stderr) (trim result.stdout)))))))

pub run_verb : ShellExecutor → ServiceActionArgs → Action ShellCommand ToolResult
unfolding not_installed_error failed_error
run_verb shell args = do
  probe ← execute shell (probe_of args)
  guarded (refuse_unless (succeeded probe) (not_installed_error args)) (do
    action ← execute shell (verb_of args)
    guarded (refuse_unless (succeeded action) (failed_error args action)) (do
      status ← execute shell (status_of args)
      pure (render_outcome args (parse_status_output status.stdout) (trim status.stdout))))

pub service_action :
    Option ShellExecutor
    → Option ElicitationChannel
    → ServiceActionArgs
    → Action ShellCommand ToolResult
unfolding run_verb validate
service_action shell channel args = with_shell shell (λ host. guarded (validate args) (
    guarded (require_risk_acknowledgement_interactive args.flags (refusal_message args) channel) (
      try_catch (run_verb host args) (λ message. tool_error (
        u "Failed to "
        ++ (verb_text args.action
            ++ (u " " ++ (service_text args.service ++ (u " over SSH: " ++ message)))))))))
