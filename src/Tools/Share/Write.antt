-- ===== src/Tools/Share/Write.antt =====
-- tools/share/share-create.ts and share-edit.ts: the handlers of the tools `share_create` and `share_edit`.
pub mod Laws
pub mod Edit
use better_unraid_mcp.Base.{
  Text, u, [], ◌∷◌, ◌++◌, Bool, ◌||◌, Option, none, some, trim, if◌then◌else◌,
}
use better_unraid_mcp.Effects.{Action, pure, ◌>>=◌, execute, try_catch, guarded}
use better_unraid_mcp.Respond.{ToolResult, tool_error}
use better_unraid_mcp.Gate.{
  ElicitationChannel, RiskGateFlags, require_risk_acknowledgement_interactive,
}
use better_unraid_mcp.Tools.Ssh.{
  ShellCommand, ShellResult, ShellExecutor, with_shell, refuse_unless,
}
use better_unraid_mcp.Tools.Share.Parse.{Config}
use better_unraid_mcp.Tools.Share.Name.{validate_share_name}
use better_unraid_mcp.Tools.Share.Query.{ShareSettings, EditQueryInput, add_share, apply, is_given}
use better_unraid_mcp.Tools.Share.WriteFlow.{
  cfg_command, cfg_of, host_command, context_of, check_against_host, apply_and_verify,
}

pub record ShareWriteArgs : Type 0 where
  pub name : Text
  pub settings : ShareSettings
  pub flags : RiskGateFlags

-- `if (invalidName) { return toolError(…); }`
abbrev pub refuse_name : Option Text → Option ToolResult
refuse_name none = none
refuse_name (some invalid) = some (tool_error (invalid ++ u " No changes were made."))

already_exists : Text → ToolResult
already_exists name = tool_error (
    u "Share \""
    ++ (name ++ u "\" already exists — use share_edit to change it. No changes were made."))

no_config : Text → ToolResult
no_config name = tool_error (
    u "Share \""
    ++ (name
        ++ u
            "\" has no config under /boot/config/shares — use share_create for a new share. No changes were made."))

-- The forms of a new share and of one that is changed.
pub create_input : ShareWriteArgs → EditQueryInput
create_input args = record {
  name = args.name;
  name_orig = [];
  current = [];
  changes = args.settings;
  command = add_share;
}

pub edit_input : ShareWriteArgs → Config → EditQueryInput
edit_input args current = record {
  name = args.name;
  name_orig = args.name;
  current = current;
  changes = args.settings;
  command = apply;
}

-- The host's facts are read, the call is checked against them, and the form goes to emhttpd.
pub submit_checked :
    ShellExecutor → ShareWriteArgs → EditQueryInput → Action ShellCommand ToolResult
submit_checked shell args input = do
  host ← execute shell host_command
  guarded (check_against_host args.name args.settings (context_of host.stdout))
      (apply_and_verify shell input)

create_unless : ShellExecutor → ShareWriteArgs → Option Config → Action ShellCommand ToolResult
unfolding already_exists submit_checked
create_unless shell args (some current) = pure (already_exists args.name)
create_unless shell args none = submit_checked shell args (create_input args)

edit_if : ShellExecutor → ShareWriteArgs → Option Config → Action ShellCommand ToolResult
unfolding no_config submit_checked
edit_if shell args none = pure (no_config args.name)
edit_if shell args (some current) = submit_checked shell args (edit_input args current)

pub run_create : ShellExecutor → ShareWriteArgs → Action ShellCommand ToolResult
unfolding create_unless
run_create shell args = do
  found ← execute shell (cfg_command args.name)
  create_unless shell args (cfg_of found)

pub run_edit : ShellExecutor → ShareWriteArgs → Action ShellCommand ToolResult
unfolding edit_if
run_edit shell args = do
  found ← execute shell (cfg_command args.name)
  edit_if shell args (cfg_of found)

abbrev pub has_changes : ShareSettings → Bool
has_changes settings =
    is_given settings.comment
    || (is_given settings.allocator
        || (is_given settings.use_cache
            || (is_given settings.cache_pool
                || (is_given settings.smb_export || is_given settings.smb_security))))

pub create_message : Text → Text
create_message name =
    u "Refusing to create share \""
    ++ (name
        ++ u
            "\": this adds a user share (and its directory under /mnt/user) exactly as the web UI would. Re-call with \"confirm\": true and \"acknowledge_risk\": true to proceed. No changes were made.")

pub edit_message : Text → Text
edit_message name =
    u "Refusing to edit share \""
    ++ (name
        ++ u
            "\": changing allocation, cache mode, or SMB export/security affects where new files land and who can reach them. Re-call with \"confirm\": true and \"acknowledge_risk\": true to proceed. No changes were made.")

nothing_to_change : ToolResult
nothing_to_change = tool_error (
    u
      "Refusing to edit: nothing to change — pass at least one of comment, allocator, useCache, cachePool, smbExport, smbSecurity. No changes were made.")

pub share_create :
    Option ShellExecutor
    → Option ElicitationChannel
    → ShareWriteArgs
    → Action ShellCommand ToolResult
unfolding run_create
share_create shell channel args = with_shell shell (λ host.
    guarded (refuse_name (validate_share_name args.name)) (
      guarded
        (require_risk_acknowledgement_interactive args.flags (create_message args.name) channel)
        (try_catch (run_create host args)
          (λ message. tool_error (u "Failed to create share over SSH: " ++ message)))))

pub share_edit :
    Option ShellExecutor
    → Option ElicitationChannel
    → ShareWriteArgs
    → Action ShellCommand ToolResult
unfolding run_edit nothing_to_change
share_edit shell channel args = with_shell shell (λ host.
    guarded (refuse_name (validate_share_name args.name)) (
      guarded (refuse_unless (has_changes args.settings) nothing_to_change) (
        guarded
          (require_risk_acknowledgement_interactive args.flags (edit_message args.name) channel)
          (try_catch (run_edit host args)
            (λ message. tool_error (u "Failed to edit share over SSH: " ++ message))))))
